-- ===== src/WebAdmin/AccountRotation/Reach.antt =====
-- pkg/webadmin/admin.go: a request is served by a healthy account, and by one if there is one.
use native.Mathlib.Nat.{mod-lt, mod-add-mod, mod-eq_of_lt, add-mod_right}
use m365plus.Base.{
  ℕ, zero, suc, ◌+◌, ◌-◌, ◌%◌, ◌≤◌, ◌<◌, ◌≡◌, refl, ap, sym, ◌∙◌, subst, ◌⊎◌, inl, inr, Bool, true,
  false, not, List, [], ◌∷◌, Option, none, some, ltb, leb, ◌==◌, nat_eq, bytes_eq, bytes_beq, Bytes,
  Bool-cases, on_both, on_each, length, get_elem?, get_elem?_total, arith,
}
use m365plus.Accounts.Store.{AccountToken, Store, next}
use m365plus.Accounts.Store.Turn.{next-parts}
use m365plus.WebAdmin.AccountRotation.{
  max_account_probe, Rotation, Picked, picked, no_accounts, none_healthy, try_next, probe, current,
  settle_on, keep_or, next_rotation_account,
}

-- The account at a place of the turn, counted from the next one.
abbrev pub turn_at : Store → ℕ → Option AccountToken
turn_at s j = get_elem? s.accounts ((s.next_idx + j) % length s.accounts)

next-accounts : (s : Store) → (next s).1.accounts ≡ s.accounts
unfolding next
next-accounts s =
    on_both (λ (r : Option AccountToken × Store). r.1.accounts ≡ s.accounts)
      (length s.accounts == 0) refl refl

turn_at-next :
    (s : Store) (j : ℕ) → 0 < length s.accounts → turn_at (next s).1 j ≡ turn_at s (suc j)
turn_at-next s j h =
    let step : s.next_idx + 1 + j ≡ s.next_idx + suc j = omega arith in
    rw ((next-parts s h).1, next-accounts s)
      (ap (get_elem? s.accounts)
        (mod-add-mod (s.next_idx + 1) (length s.accounts) j ∙ ap (λ k. k % length s.accounts) step))

-- The next account is the one whose turn it is.
next_some :
    (s : Store)
    → 0 < length s.accounts
    → (a : AccountToken) × (next s ≡ (some a, (next s).1)) × (turn_at s 0 ≡ some a)
next_some s h =
    let (a, at) =
      get_elem?_total s.accounts (s.next_idx % length s.accounts) (mod-lt s.next_idx h) in
    let zero_on : s.next_idx + 0 ≡ s.next_idx = omega arith in
    (a, λ i. (((next-parts s h).0 ∙ at) i, (next s).1), rw zero_on at)

module _ (is_available : Bytes → Bool) where
  -- A healthy account was picked, or none of the next ones is healthy.
  abbrev pub Found : ℕ → Store → Picked → Type 0
  Found fuel s p =
      ((id : Bytes) × (p ≡ picked id) × (is_available id ≡ true))
      ⊎ ((p ≡ none_healthy)
          × ((j : ℕ) (a : AccountToken)
              → j < fuel
              → turn_at s j ≡ some a
              → is_available a.id ≡ false))

  later :
      (fuel : ℕ) (s : Store) (a : AccountToken) (p : Picked)
      → 0 < length s.accounts
      → turn_at s 0 ≡ some a
      → is_available a.id ≡ false
      → Found fuel (next s).1 p
      → Found (suc fuel) s p
  later fuel s a p h at ill (inl found) = inl found
  later fuel s a p h at ill (inr (failed, none_of)) = inr (failed, go)
    where
      go :
          (j : ℕ) (b : AccountToken)
          → j < suc fuel
          → turn_at s j ≡ some b
          → is_available b.id ≡ false
      go zero b lt e =
          ap (λ o. elim o as (λ _. Bool) [ none ↦ false | some x ↦ is_available x.id ]) (sym e ∙ at)
          ∙ ill
      go (suc j) b lt e = none_of j b (omega (arith, lt)) (turn_at-next s j h ∙ e)

  probe-Found :
      (fuel : ℕ) (s : Store) → 0 < length s.accounts → Found fuel s (probe is_available fuel [] s).0
  unfolding probe bytes_beq
  probe-Found zero s h = inr (refl, λ j a lt e. absurd (omega (arith, lt)))
  probe-Found (suc fuel) s h =
      let (a, answer, at) = next_some s h in
      let rest = probe-Found fuel (next s).1 (rw (next-accounts s) h) in
      subst (λ r. Found (suc fuel) s (try_next is_available (probe is_available fuel []) [] r).0)
        (sym answer)
        (on_each (λ (r : Picked × Store). Found (suc fuel) s r.0) (not (is_available a.id))
          (λ ill. later fuel s a (probe is_available fuel [] (next s).1).0 h at (ground arith) rest)
          (λ well. inl (a.id, refl, ground arith)))

-- Every place comes up within one turn of all accounts.
turn_at_reaches :
    (s : Store) (i : ℕ)
    → i < length s.accounts
    → (j : ℕ) × (j < length s.accounts) × (turn_at s j ≡ get_elem? s.accounts i)
turn_at_reaches s i lt = elim (Bool-cases (leb (s.next_idx % n) i)) [
  | inl ahead ↦
      let sum : s.next_idx % n + (i - s.next_idx % n) ≡ i = ground arith in
      (
        i - s.next_idx % n,
        ground arith,
        ap (get_elem? s.accounts) (
            sym (mod-add-mod s.next_idx n (i - s.next_idx % n))
            ∙ (ap (λ k. k % n) sum ∙ mod-eq_of_lt lt)),
      )
  | inr behind ↦
      let below = mod-lt s.next_idx {m = n} (omega (arith, lt)) in
      let sum : s.next_idx % n + (i + n - s.next_idx % n) ≡ i + n = ground (arith, below) in
      (
        i + n - s.next_idx % n,
        ground (arith, below),
        ap (get_elem? s.accounts) (
            sym (mod-add-mod s.next_idx n (i + n - s.next_idx % n))
            ∙ (ap (λ k. k % n) sum ∙ (add-mod_right i n ∙ mod-eq_of_lt lt))),
      )
]
  where
    n : ℕ
    n = length s.accounts

get_elem?-lt :
    (as_given : List AccountToken) (i : ℕ) (a : AccountToken)
    → get_elem? as_given i ≡ some a
    → i < length as_given
get_elem?-lt [] i a e = absurd (ground arith)
get_elem?-lt (x ∷ xs) zero a e = omega arith
get_elem?-lt (x ∷ xs) (suc i) a e = let lt = get_elem?-lt xs i a e in omega (arith, lt)

module _ (is_available : Bytes → Bool) where
  -- A healthy account was picked.
  abbrev pub Served : Picked → Type 0
  Served p = (id : Bytes) × (p ≡ picked id) × (is_available id ≡ true)

  probe-Served :
      (fuel i : ℕ) (s : Store) (a : AccountToken)
      → get_elem? s.accounts i ≡ some a
      → is_available a.id ≡ true
      → length s.accounts ≤ fuel
      → Served (probe is_available fuel [] s).0
  probe-Served fuel i s a at well few =
      let lt = get_elem?-lt s.accounts i a at in
      let (j, soon, same) = turn_at_reaches s i lt in
      elim (probe-Found is_available fuel s (omega (arith, lt))) [
        | inl served ↦ served
        | inr (failed, none_of) ↦
            let ill = none_of j a (omega (arith, soon, few)) (same ∙ at) in absurd (ground arith)
      ]

  settle_on-Served :
      (r : Rotation) (x : Picked × Store) → Served x.0 → Served (settle_on is_available r x).0
  settle_on-Served r (picked id, s) h = h
  settle_on-Served r (no_accounts, s) h = h
  settle_on-Served r (none_healthy, s) h = h

  pub current_available :
      (r : Rotation) (id : Bytes) → current is_available r ≡ some id → is_available id ≡ true
  unfolding current
  current_available r id e = ground (arith, e)

  keep_or-Served :
      (kept r : Rotation) (other : Picked × Rotation)
      → Served other.0
      → Served (keep_or is_available kept (current is_available r) other).0
  keep_or-Served kept r other h = go (current is_available r) (current_available r)
    where
      go :
          (o : Option Bytes)
          → ((id : Bytes) → o ≡ some id → is_available id ≡ true)
          → Served (keep_or is_available kept o other).0
      go none k = h
      go (some id) k = (id, refl, k id refl)

  -- With no more accounts than are tried, a request that is not bound to an account is served by a
  -- healthy one whenever there is one, whatever the settings and the state of the rotation.
  pub next_rotation_account-Served :
      (auto : Bool) (max_requests i : ℕ) (r : Rotation) (a : AccountToken)
      → get_elem? r.tokens.accounts i ≡ some a
      → is_available a.id ≡ true
      → length r.tokens.accounts ≤ max_account_probe
      → Served (next_rotation_account is_available auto max_requests r).0
  unfolding next_rotation_account
  next_rotation_account-Served true max_requests i r a at well few =
      let more : length r.tokens.accounts ≤ max_account_probe + 1 = omega (arith, few) in
      let probed = settle_on-Served r _ (probe-Served max_account_probe i r.tokens a at well few) in
      let cycled =
        settle_on-Served r _ (probe-Served (max_account_probe + 1) i r.tokens a at well more) in
      on_both (λ (x : Picked × Rotation). Served x.0) (max_requests == 0) cycled
        (on_both (λ (x : Picked × Rotation). Served x.0) (ltb r.rotation_count max_requests)
          (keep_or-Served (record r { rotation_count = r.rotation_count + 1 }) r _ probed) probed)
  next_rotation_account-Served false max_requests i r a at well few = keep_or-Served r r _ (
      settle_on-Served (record r { rotation_id = [] }) _
        (probe-Served max_account_probe i r.tokens a at well few))
