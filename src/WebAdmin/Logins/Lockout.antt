-- ===== src/WebAdmin/Logins/Lockout.antt =====
-- pkg/webadmin/admin_security.go: when an address is locked out, and how much is remembered.
use m365plus.Base.{
  ℕ, suc, ◌+◌, ◌≤◌, ◌<◌, ◌≡◌, subst, inl, inr, String, false, not, List, [], ◌∷◌, none, some, arith,
  nat_eq, string_eq, Option-cases, length,
}
use m365plus.Base.Map.{
  lookup, keep_entries, lookup-insert_self, length-insert_le, length-insert_known,
  length-keep_entries_le,
}
use m365plus.WebAdmin.Logins.{
  LoginAttempt, Attempts, max_login_attempt_entries, window, attempt_of, login_allowed,
  failed_again, is_forgotten, note_failure, record_login_failure,
}

-- The map of attempts never grows beyond its limit.
pub record_login_failure_bounded :
    (ip : String) (now : ℕ) (m : Attempts)
    → length m ≤ max_login_attempt_entries
    → length (record_login_failure ip now m) ≤ max_login_attempt_entries
unfolding record_login_failure note_failure
record_login_failure_bounded ip now m h = elim (Option-cases (lookup ip m)) [
  | inl e ↦ rw e (
      ground (
        arith,
        h,
        length-keep_entries_le (λ _ a. not (is_forgotten now a)) m,
        length-insert_le ip (failed_again now (attempt_of none)) m,
        length-insert_le ip
            (failed_again now
              (attempt_of (lookup ip (keep_entries (λ _ a. not (is_forgotten now a)) m))))
            (keep_entries (λ _ a. not (is_forgotten now a)) m),
      ))
  | inr (a, e) ↦ rw e (ground (arith, h, length-insert_known ip (failed_again now a) a m e))
]

-- The attempt of an address in its window.
abbrev pub Counts : String → ℕ → ℕ → Attempts → Type 0
Counts ip start n m =
    (a : LoginAttempt) × (lookup ip m ≡ some a) × (a.window_start ≡ start) × (a.failures ≡ n)

first-Counts :
    (ip : String) (start : ℕ) (m : Attempts)
    → lookup ip m ≡ none
    → length m < max_login_attempt_entries
    → Counts ip start 1 (record_login_failure ip start m)
unfolding record_login_failure note_failure failed_again
first-Counts ip start m e h = (
  failed_again start (attempt_of none),
  rw e (ground (arith, h, lookup-insert_self ip (failed_again start (attempt_of none)) m)),
  ground arith,
  ground arith,
)

again_known :
    (ip : String) (now : ℕ) (m : Attempts) (a : LoginAttempt)
    → lookup ip m ≡ some a
    → lookup ip (record_login_failure ip now m) ≡ some (failed_again now a)
unfolding record_login_failure note_failure
again_known ip now m a e = rw e (lookup-insert_self ip (failed_again now a) m)

again-Counts :
    (ip : String) (start now n : ℕ) (m : Attempts)
    → 0 < start
    → now ≤ start + window
    → Counts ip start n m
    → Counts ip start (suc n) (record_login_failure ip now m)
unfolding failed_again
again-Counts ip start now n m pos near (a, e, s, f) =
    (failed_again now a, again_known ip now m a e, ground arith, ground arith)

-- Failures of the address at the times of a list, the last of them first.
abbrev pub fail_each : String → List ℕ → Attempts → Attempts
fail_each ip [] m = m
fail_each ip (t ∷ ts) m = record_login_failure ip t (fail_each ip ts m)

abbrev pub AllBy : ℕ → List ℕ → Type 0
AllBy end [] = Unit {0}
AllBy end (t ∷ ts) = (t ≤ end) × AllBy end ts

each-Counts :
    (ip : String) (start n : ℕ) (ts : List ℕ) (m : Attempts)
    → 0 < start
    → AllBy (start + window) ts
    → Counts ip start n m
    → Counts ip start (length ts + n) (fail_each ip ts m)
each-Counts ip start n [] m pos near c = subst (λ k. Counts ip start k m) (omega arith) c
each-Counts ip start n (t ∷ ts) m pos (h, hs) c =
    subst (λ k. Counts ip start k (fail_each ip (t ∷ ts) m)) (omega arith)
      (again-Counts ip start t (length ts + n) (fail_each ip ts m) pos h
        (each-Counts ip start n ts m pos hs c))

last_locks :
    (ip : String) (start last now n : ℕ) (m : Attempts)
    → 0 < start
    → last ≤ start + window
    → 4 ≤ n
    → now < last + window
    → Counts ip start n m
    → (login_allowed ip now (record_login_failure ip last m)).0 ≡ false
unfolding login_allowed failed_again
last_locks ip start last now n m pos near many soon (a, e, s, f) =
    rw (again_known ip last m a e) (ground arith)

-- An address that was not known, in a map with room, and that fails five times or more within
-- fifteen minutes of its first failure, is not allowed to log in for fifteen minutes from the last.
pub locked_out :
    (ip : String) (start last now : ℕ) (ts : List ℕ) (m : Attempts)
    → 0 < start
    → lookup ip m ≡ none
    → length m < max_login_attempt_entries
    → AllBy (start + window) (last ∷ ts)
    → 3 ≤ length ts
    → now < last + window
    → (login_allowed ip now (fail_each ip (last ∷ ts) (record_login_failure ip start m))).0 ≡ false
locked_out ip start last now ts m pos new room (h, hs) many soon =
    last_locks ip start last now (length ts + 1) (fail_each ip ts (record_login_failure ip start m))
      pos h (omega arith) soon
      (each-Counts ip start 1 ts (record_login_failure ip start m) pos hs
        (first-Counts ip start m new room))
