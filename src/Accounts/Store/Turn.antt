-- ===== src/Accounts/Store/Turn.antt =====
-- pkg/accounts/cache.go: `Next` gives the accounts in turn.
use native.Mathlib.Nat.{mod-lt, mod-add-mod, mod-mod}
use m365plus.Base.{
  ℕ, zero, suc, ◌+◌, ◌%◌, ◌<◌, ◌≡◌, refl, sym, ap, ◌∙◌, some, arith, nat_eq, length, get_elem?,
  get_elem?_total,
}
use m365plus.Accounts.Store.{AccountToken, Store, next}

-- The store after a number of calls of `Next`.
unfoldable pub after_next : ℕ → Store → Store
after_next zero s = s
after_next (suc k) s = (next (after_next k s)).1

after_next-accounts : (k : ℕ) (s : Store) → (after_next k s).accounts ≡ s.accounts
unfolding after_next next
after_next-accounts zero s = refl
after_next-accounts (suc k) s = ground (arith, after_next-accounts k s)

pub next-parts :
    (s : Store)
    → 0 < length s.accounts
    → ((next s).0 ≡ get_elem? s.accounts (s.next_idx % length s.accounts))
      × ((next s).1.next_idx ≡ (s.next_idx + 1) % length s.accounts)
unfolding next
next-parts s h = ground arith

mod-mod_step : (x y n : ℕ) → x % n ≡ y % n → (x + 1) % n % n ≡ (y + 1) % n
mod-mod_step x y n h =
    mod-mod (x + 1) n ∙ sym (mod-add-mod x n 1) ∙ ap (λ z. (z + 1) % n) h ∙ mod-add-mod y n 1

after_next-idx :
    (k : ℕ) (s : Store)
    → 0 < length s.accounts
    → (after_next k s).next_idx % length s.accounts ≡ (s.next_idx + k) % length s.accounts
unfolding after_next
after_next-idx zero s h = let e : s.next_idx + 0 ≡ s.next_idx = omega arith in rw e
after_next-idx (suc k) s h =
    let same = after_next-accounts k s in
    let idx = (next-parts (after_next k s) (rw same h)).1 in
    let e : s.next_idx + suc k ≡ s.next_idx + k + 1 = omega arith in
    rw (idx, same, e)
      (mod-mod_step (after_next k s).next_idx (s.next_idx + k) (length s.accounts)
        (after_next-idx k s h))

-- `Next` is round robin: with n accounts, the call after k others answers the account at place
-- (start + k) modulo n, and there is one.
pub next_turn :
    (k : ℕ) (s : Store)
    → 0 < length s.accounts
    → (a : AccountToken) × ((next (after_next k s)).0 ≡ some a)
      × (get_elem? s.accounts ((s.next_idx + k) % length s.accounts) ≡ some a)
next_turn k s h =
    let same = after_next-accounts k s in
    let place = (s.next_idx + k) % length s.accounts in
    let (a, at) = get_elem?_total s.accounts place (mod-lt (s.next_idx + k) h) in
    let answer = (next-parts (after_next k s) (rw same h)).0 in
    (a, answer ∙ rw (same, after_next-idx k s h) at, at)
