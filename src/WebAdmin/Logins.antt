-- ===== src/WebAdmin/Logins.antt =====
-- pkg/webadmin/admin_security.go: the limit on failed logins of the administrator. Times are in
-- seconds, 0 the zero time; `time.Until` reads the clock at `now`.
pub mod Lockout
use m365plus.Base.{
  ℕ, ◌+◌, ◌-◌, String, Bool, true, false, not, ◌&&◌, ◌||◌, Option, none, some, ltb, leb, ◌==◌,
  nat_eq, string_eq, if◌then◌else◌, length,
}
use m365plus.Base.Map.{Map, lookup, insert, delete, keep_entries}

pub record LoginAttempt : Type 0 where
  pub failures : ℕ
  pub window_start : ℕ
  pub locked_until : ℕ

abbrev pub Attempts : Type 0
Attempts = Map String LoginAttempt

abbrev pub max_login_attempt_entries : ℕ
max_login_attempt_entries = 4096

-- Fifteen minutes.
abbrev pub window : ℕ
window = 900

-- A missing key reads as the zero attempt.
abbrev pub attempt_of : Option LoginAttempt → LoginAttempt
attempt_of none = record { failures = 0; window_start = 0; locked_until = 0 }
attempt_of (some a) = a

abbrev pub is_window_over : ℕ → LoginAttempt → Bool
is_window_over now a = a.window_start == 0 || ltb (a.window_start + window) now

-- Whether the address may try, how long it must wait, and the attempts kept.
unfoldable pub login_allowed : String → ℕ → Attempts → Bool × ℕ × Attempts
login_allowed ip now m =
    let a = attempt_of (lookup ip m) in
    if ltb now a.locked_until
    then (false, a.locked_until - now, m)
    else (true, 0, if is_window_over now a then delete ip m else m)

-- The attempt after one more failure.
unfoldable pub failed_again : ℕ → LoginAttempt → LoginAttempt
failed_again now old =
    let a : LoginAttempt =
      if is_window_over now old
      then record { failures = 0; window_start = now; locked_until = 0 }
      else old in
    record {
      failures = a.failures + 1;
      window_start = a.window_start;
      locked_until = if leb 5 (a.failures + 1) then now + window else a.locked_until;
    }

abbrev pub is_forgotten : ℕ → LoginAttempt → Bool
is_forgotten now a = ltb (a.window_start + window) now && ltb a.locked_until now

unfoldable pub note_failure : String → ℕ → Attempts → Attempts
note_failure ip now m = insert ip (failed_again now (attempt_of (lookup ip m))) m

abbrev pub is_known : Option LoginAttempt → Bool
is_known none = false
is_known (some _) = true

unfoldable pub record_login_failure : String → ℕ → Attempts → Attempts
record_login_failure ip now m =
    let kept = keep_entries (λ _ a. not (is_forgotten now a)) m in
    if not (is_known (lookup ip m)) && leb max_login_attempt_entries (length m)
    then (if leb max_login_attempt_entries (length kept) then kept else note_failure ip now kept)
    else note_failure ip now m

unfoldable pub clear_login_failures : String → Attempts → Attempts
clear_login_failures ip m = delete ip m
