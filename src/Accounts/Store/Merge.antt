-- ===== src/Accounts/Store/Merge.antt =====
-- pkg/accounts/cache.go: what `Import` and `Upsert` make of the accounts.
use m365plus.Base.{
  ℕ, ◌+◌, ◌<◌, ◌≡◌, ◌≢◌, refl, sym, inl, inr, List, [], ◌∷◌, ◌++◌, Bool, true, false, Option, none,
  some, arith, ◌==◌, ==_iff, ==_refl, nat_eq, bytes_eq, Option-cases, length, length-append,
  filterb, Bytes,
}
use m365plus.Accounts.Store.{
  AccountToken, TokenSet, Store, or_else, identify, same_account, replace_first, Merged, merge_one,
  merge_all, import_accounts, account_of, is_upsert_of, inherit, find_account, put_account, upsert,
}

length-replace_first :
    (test : AccountToken → Bool) (f : AccountToken → AccountToken) (xs : List AccountToken)
    → length (replace_first test f xs).0 ≡ length xs
unfolding replace_first
length-replace_first test f [] = refl
length-replace_first test f (a ∷ xs) = ground (arith, length-replace_first test f xs)

merge_one-counts :
    (a : AccountToken) (m : Merged)
    → let m' = merge_one a m in
      (m'.added + m'.updated ≡ m.added + m.updated + 1)
      × (length m'.accounts + m.added ≡ length m.accounts + m'.added)
unfolding merge_one
merge_one-counts a m =
    let new = identify a in
    ground (
      arith,
      length-replace_first (same_account new) (λ _. new) m.accounts,
      length-append m.accounts (new ∷ []),
    )

merge_all-counts :
    (imported : List AccountToken) (m : Merged)
    → let m' = merge_all imported m in
      (m'.added + m'.updated ≡ m.added + m.updated + length imported)
      × (length m'.accounts + m.added ≡ length m.accounts + m'.added)
unfolding merge_all
merge_all-counts [] m = omega arith
merge_all-counts (a ∷ more) m =
    omega (arith, merge_one-counts a m, merge_all-counts more (merge_one a m))

-- An import that is saved counts every record, as added or as updated, and the store grows by those
-- added, so that no account is lost; one that cannot be saved changes nothing.
pub import_accounts-counts :
    (imported : List AccountToken) (s : Store)
    → (import_accounts imported false s ≡ (none, s))
      × ((added : ℕ) × (updated : ℕ) × (accounts : List AccountToken) × (import_accounts imported
              true s
            ≡ (some (added, updated), record s { accounts = accounts }))
          × (added + updated ≡ length imported)
          × (length accounts ≡ length s.accounts + added))
unfolding import_accounts
import_accounts-counts imported s =
    let m = merge_all imported (record { accounts = s.accounts; added = 0; updated = 0 }) in
    let c = merge_all-counts imported (record { accounts = s.accounts; added = 0; updated = 0 }) in
    (refl, (m.added, m.updated, m.accounts, refl, omega (arith, c), omega (arith, c)))

find_account-replace_first :
    (test : AccountToken → Bool) (f : AccountToken → AccountToken) (xs : List AccountToken)
    (old : AccountToken)
    → find_account test xs ≡ some old
    → test (f old) ≡ true
    → find_account test (replace_first test f xs).0 ≡ some (f old)
unfolding find_account replace_first
find_account-replace_first test f [] old h keep = cc
find_account-replace_first test f (a ∷ xs) old h keep =
    ground (arith, find_account-replace_first test f xs old)

find_account-append :
    (test : AccountToken → Bool) (xs : List AccountToken) (a : AccountToken)
    → find_account test xs ≡ none
    → test a ≡ true
    → find_account test (xs ++ a ∷ []) ≡ some a
unfolding find_account
find_account-append test [] a h t = ground (arith, t)
find_account-append test (x ∷ xs) a h t = ground (arith, find_account-append test xs a)

abbrev pub old_refresh_token : Option AccountToken → Bytes
old_refresh_token none = []
old_refresh_token (some old) = old.refresh_token

is_upsert_of_self : (acc : AccountToken) → is_upsert_of acc acc ≡ true
unfolding is_upsert_of
is_upsert_of_self acc = ground (arith, ==_refl acc.id)

is_upsert_of-inherit : (acc old : AccountToken) → is_upsert_of acc (inherit acc old) ≡ true
unfolding is_upsert_of inherit
is_upsert_of-inherit acc old = ground (arith, ==_refl acc.id)

is_upsert_of-inherit_eq :
    (acc old : AccountToken) → is_upsert_of (inherit acc old) ≡ is_upsert_of acc
unfolding is_upsert_of inherit
is_upsert_of-inherit_eq acc old = refl

or_else-nil : (v : Bytes) → or_else v [] ≡ v
or_else-nil v = ground (arith, ==_iff v [])

inherit-parts :
    (acc old : AccountToken)
    → ((inherit acc old).id ≡ acc.id)
      × ((inherit acc old).access_token ≡ acc.access_token)
      × ((inherit acc old).refresh_token ≡ or_else acc.refresh_token old.refresh_token)
unfolding inherit
inherit-parts acc old = (refl, refl, refl)

put_account-find :
    (acc : AccountToken) (s : Store)
    → let (answer, s') = put_account acc s in
      (find_account (is_upsert_of answer) s'.accounts ≡ some answer)
      × (answer.id ≡ acc.id)
      × (answer.access_token ≡ acc.access_token)
      × (answer.refresh_token
          ≡ or_else acc.refresh_token
              (old_refresh_token (find_account (is_upsert_of acc) s.accounts)))
unfolding put_account
put_account-find acc s = elim (Option-cases (find_account (is_upsert_of acc) s.accounts)) [
  | inl e ↦
      rw (e, put_account)
        (
          find_account-append (is_upsert_of acc) s.accounts acc e (is_upsert_of_self acc),
          refl,
          refl,
          sym (or_else-nil acc.refresh_token),
        )
  | inr (old, e) ↦
      rw (e, put_account)
        (
          rw (is_upsert_of-inherit_eq acc old) (
              find_account-replace_first (is_upsert_of acc) (inherit acc) s.accounts old e
                (is_upsert_of-inherit acc old)),
          (inherit-parts acc old).0,
          (inherit-parts acc old).1,
          (inherit-parts acc old).2,
        )
]

-- After `Upsert` the account that it answers is the first of the store with its id or its email,
-- with the new access token, and with the old refresh token where the new one is empty.
pub upsert-find :
    (tok : TokenSet) (made_up client : Bytes) (now : ℕ) (s : Store)
    → let acc = account_of tok made_up client now in
      let (answer, s') = upsert tok made_up client now s in
      (find_account (is_upsert_of answer) s'.accounts ≡ some answer)
      × (answer.id ≡ acc.id)
      × (answer.access_token ≡ tok.access_token)
      × (answer.refresh_token
          ≡ or_else tok.refresh_token
              (old_refresh_token (find_account (is_upsert_of acc) s.accounts)))
unfolding upsert
upsert-find tok made_up client now s =
    let acc = account_of tok made_up client now in
    let p = put_account-find acc s in (p.0, p.1, unfold account_of in p.2, unfold account_of in p.3)

-- How many accounts have an id.
abbrev pub count_id : Bytes → List AccountToken → ℕ
count_id id xs = length (filterb (λ a. a.id == id) xs)

put_account-hit :
    (acc : AccountToken) (s : Store) (b : AccountToken) (more : List AccountToken)
    → s.accounts ≡ b ∷ more
    → is_upsert_of acc b ≡ true
    → (put_account acc s).1.accounts
      ≡ record acc {
        refresh_token = or_else acc.refresh_token b.refresh_token;
        tid = or_else acc.tid b.tid;
        oid = or_else acc.oid b.oid;
      }
        ∷ more
unfolding put_account find_account replace_first inherit
put_account-hit acc s b more e hit = rw (e, put_account) (rw hit (rw e (rw hit)))

put_account-duplicate :
    (acc : AccountToken) (s : Store) (b : AccountToken) (more : List AccountToken)
    → s.accounts ≡ b ∷ more
    → is_upsert_of acc b ≡ true
    → count_id acc.id (put_account acc s).1.accounts ≡ 1 + count_id acc.id more
put_account-duplicate acc s b more e hit =
    rw (put_account-hit acc s b more e hit, ==_refl acc.id) (omega arith)

email_hit :
    (tok : TokenSet) (made_up client : Bytes) (now : ℕ) (b : AccountToken)
    → tok.email ≢ []
    → b.email ≡ tok.email
    → is_upsert_of (account_of tok made_up client now) b ≡ true
unfolding account_of is_upsert_of
email_hit tok made_up client now b ne mail =
    ground (arith, ==_iff tok.email [], ==_iff b.email tok.email)

-- `Upsert` leaves two accounts with one id whenever the first account has the email of the tokens,
-- which is not empty, and a later account has their id.
pub upsert_duplicate_id :
    (tok : TokenSet) (made_up client : Bytes) (now : ℕ) (s : Store) (b : AccountToken)
    (more : List AccountToken)
    → s.accounts ≡ b ∷ more
    → tok.email ≢ []
    → b.email ≡ tok.email
    → 0 < count_id (account_of tok made_up client now).id more
    → 1
      < count_id (account_of tok made_up client now).id (upsert tok made_up client now s).1.accounts
unfolding upsert
upsert_duplicate_id tok made_up client now s b more e ne mail there =
    let acc = account_of tok made_up client now in
    omega (arith, put_account-duplicate acc s b more e (email_hit tok made_up client now b ne mail))
