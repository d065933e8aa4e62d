-- ===== src/Accounts/Store/Refresh.antt =====
-- pkg/accounts/cache.go: `EnsureValid` and `refreshInflight`. The three ways to new tokens are
-- parameters: `exchange` is `Refresh` of a refresh token, `sso` the injected re-authentication,
-- none where it is not set, and `cdp` the browser's, none where it is not set or not enabled.
use m365plus.Base.{
  ℕ, ◌+◌, ◌<◌, ◌≡◌, refl, ◌∙◌, ◌⊎◌, inl, inr, [], ◌∷◌, Bool, true, false, ◌&&◌, Option, none, some,
  arith, ltb, leb, ◌==◌, ==_iff, bytes_eq, if◌then◌else◌, Bool-cases, Option-cases, Bytes,
}
use m365plus.Base.Text.{codes}
use m365plus.Accounts.Store.{
  AccountToken, TokenSet, Store, or_else, first_non_empty, replace_first, find_account,
  is_upsert_of, upsert, get,
}
use m365plus.Accounts.Store.Merge.{upsert-find}

-- The account, or the error of a missing account, of tokens that could not be saved, or of an
-- account that has no valid tokens.
pub data Ensured : Type 0 where
  not_found : Ensured
  valid : AccountToken → Ensured
  unsaved : AccountToken → Ensured
  expired : AccountToken → Ensured

pub record Sources : Type 0 where
  pub exchange : Bytes → Option TokenSet
  pub sso : Option (AccountToken → Option TokenSet)
  pub cdp : Option (AccountToken → Option AccountToken)

abbrev pub attempt {ℓ} : {A : Type ℓ} → Option (AccountToken → Option A) → AccountToken → Option A
attempt none a = none
attempt (some f) a = f a

-- The tokens that the browser's account stands for: there is no refresh token among them.
unfoldable pub tokens_of : AccountToken → TokenSet
tokens_of a = record {
  access_token = a.access_token;
  refresh_token = [];
  expires_at = a.expires_at;
  email = a.email;
  display_name = a.display_name;
  home_oid = a.oid;
  tenant_id = a.tid;
}

unfoldable pub redeem : Sources → AccountToken → Option TokenSet
redeem src a = elim (src.exchange a.refresh_token) [
  | some tok ↦ some tok
  | none ↦ elim (attempt src.sso a) [
    | some tok ↦ some tok
    | none ↦ elim (attempt src.cdp a) [ some b ↦ some (tokens_of b) | none ↦ none ]
  ]
]

-- The gaps of new tokens, filled from the account.
unfoldable pub fill : AccountToken → TokenSet → TokenSet
fill a tok = record tok {
  email = or_else tok.email a.email;
  display_name = or_else tok.display_name a.display_name;
  home_oid = if tok.home_oid == [] then first_non_empty (a.oid ∷ a.id ∷ []) else tok.home_oid;
  tenant_id = or_else tok.tenant_id a.tid;
}

abbrev pub as_expired : AccountToken → AccountToken
as_expired a = record a { status = codes "expired" }

-- `s.data.Accounts[i] = acc` at the first account with its id.
unfoldable pub store_account : AccountToken → Store → Store
store_account a s = record s {
  accounts = (replace_first (λ b. b.id == a.id) (λ _. a) s.accounts).0;
}

-- The winner of the flight; the others get its answer. `saved` is whether the file is written.
unfoldable pub refresh_inflight :
    Sources → Bytes → Bytes → ℕ → Bool → AccountToken → Store → Ensured × Store
refresh_inflight src made_up client now saved a s = elim (redeem src a) [
  | none ↦ (expired (as_expired a), store_account (as_expired a) s)
  | some tok ↦
      let (acc, s') = upsert (fill a tok) made_up client now s in
      (if saved then valid acc else unsaved acc, s')
]

unfoldable pub must_refresh : ℕ → AccountToken → Store → Bool
must_refresh now a s = ltb 0 s.refresh_interval && leb (a.updated_at + s.refresh_interval) now

unfoldable pub ensure_account :
    Sources → Bytes → Bytes → ℕ → Bool → AccountToken → Store → Ensured × Store
ensure_account src made_up client now saved a s =
    if must_refresh now a s
    then refresh_inflight src made_up client now saved a s
    else if ltb (now + 30) a.expires_at
    then (valid a, s)
    else if a.refresh_token == []
    then (expired (as_expired a), store_account (as_expired a) s)
    else refresh_inflight src made_up client now saved a s

unfoldable pub ensure_valid : Sources → Bytes → Bytes → ℕ → Bool → Bytes → Store → Ensured × Store
ensure_valid src made_up client now saved id s = elim (get id s) [
  | none ↦ (not_found, s)
  | some a ↦ ensure_account src made_up client now saved a s
]

-- The account is one with tokens that were redeemed for `a`, and the store holds it.
abbrev pub Redeemed : Sources → AccountToken → AccountToken → Store → Type 0
Redeemed src a b s' =
    (tok : TokenSet) × (redeem src a ≡ some tok)
    × (b.access_token ≡ tok.access_token)
    × (find_account (is_upsert_of b) s'.accounts ≡ some b)

-- What an answer of `EnsureValid` for an account means: a valid one has the account's own token,
-- with half a minute to go and the store as it was, or tokens that were redeemed for it, which the
-- store now holds; an expired one was not redeemed and is marked.
abbrev pub Justified : Sources → ℕ → AccountToken → Store → Ensured → Store → Type 0
Justified src now a s not_found s' = ⊥
Justified src now a s (valid b) s' =
    ((b ≡ a) × (now + 30 < a.expires_at) × (s' ≡ s)) ⊎ Redeemed src a b s'
Justified src now a s (unsaved b) s' = Redeemed src a b s'
Justified src now a s (expired b) s' =
    (b ≡ as_expired a)
    × ((a.refresh_token ≡ []) ⊎ (redeem src a ≡ none))
    × (s' ≡ store_account (as_expired a) s)

fill-access_token :
    (a : AccountToken) (tok : TokenSet) → (fill a tok).access_token ≡ tok.access_token
unfolding fill
fill-access_token a tok = refl

upsert-Redeemed :
    (src : Sources) (made_up client : Bytes) (now : ℕ) (a : AccountToken) (s : Store)
    (tok : TokenSet)
    → redeem src a ≡ some tok
    → Redeemed src a
        (upsert (fill a tok) made_up client now s).0
        (upsert (fill a tok) made_up client now s).1
upsert-Redeemed src made_up client now a s tok e =
    let p = upsert-find (fill a tok) made_up client now s in
    (tok, e, p.2 ∙ fill-access_token a tok, p.0)

refresh_inflight-Justified :
    (src : Sources) (made_up client : Bytes) (now : ℕ) (saved : Bool) (a : AccountToken) (s : Store)
    → let (answer, s') = refresh_inflight src made_up client now saved a s in
      Justified src now a s answer s'
unfolding refresh_inflight
refresh_inflight-Justified src made_up client now true a s = elim (Option-cases (redeem src a)) [
  | inl e ↦ rw (e, refresh_inflight) (refl, inr e, refl)
  | inr (tok, e) ↦ rw (e, refresh_inflight) (inr (upsert-Redeemed src made_up client now a s tok e))
]
refresh_inflight-Justified src made_up client now false a s = elim (Option-cases (redeem src a)) [
  | inl e ↦ rw (e, refresh_inflight) (refl, inr e, refl)
  | inr (tok, e) ↦ rw (e, refresh_inflight) (upsert-Redeemed src made_up client now a s tok e)
]

-- For an account of the store, `EnsureValid` answers it as it is only if its token lasts for more
-- than thirty seconds. Any other account that it answers as valid, or as one that could not be
-- saved, has the access token that a source gave, and is the one that the store finds. It answers
-- the account as expired, and stores it so, only if it has no refresh token or no source gave one.
pub ensure_valid-Justified :
    (src : Sources) (made_up client id : Bytes) (now : ℕ) (saved : Bool) (a : AccountToken)
    (s : Store)
    → get id s ≡ some a
    → let (answer, s') = ensure_valid src made_up client now saved id s in
      Justified src now a s answer s'
unfolding ensure_valid ensure_account
ensure_valid-Justified src made_up client id now saved a s found =
    let flight = refresh_inflight-Justified src made_up client now saved a s in
    rw (found, ensure_valid)
      (elim (Bool-cases (must_refresh now a s)) [
        | inl due ↦ rw due flight
        | inr early ↦ rw early (elim (Bool-cases (ltb (now + 30) a.expires_at)) [
          | inl fresh ↦ rw fresh (inl (refl, ground (arith, fresh), refl))
          | inr stale ↦ rw stale (elim (Bool-cases (a.refresh_token == [])) [
            | inl bare ↦ rw bare (refl, inl ((==_iff a.refresh_token []).0 bare), refl)
            | inr full ↦ rw full flight
          ])
        ])
      ])
