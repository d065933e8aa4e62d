-- ===== src/WebAdmin/AccountHealth.antt =====
-- pkg/webadmin/account_health.go: cool-down and auth failure by account. Times and durations are in
-- seconds; a window that is not positive is 0.
pub mod History
use m365plus.Base.{
  ℕ, ◌+◌, String, Bool, true, false, not, ◌||◌, [], Option, none, some, ltb, ◌==◌, string_eq,
  nat_eq, if◌then◌else◌, Bytes,
}
use m365plus.Base.Map.{Map, lookup, insert, delete}
use m365plus.Base.Text.{codes, contains, to_lower}

-- An error whose chain holds an `UpstreamHTTPError`, or any other by its text.
pub data UpstreamError : Type 0 where
  http : ℕ → ℕ → UpstreamError
  other : Bytes → UpstreamError

abbrev pub says : Bytes → String → Bool
says message word = contains (to_lower message) (codes word)

unfoldable pub is_rate_limited : Option UpstreamError → Bool
is_rate_limited none = false
is_rate_limited (some (http status retry_after)) = status == 429 || status == 503
is_rate_limited (some (other message)) =
    says message "429"
    || says message "too many requests"
    || says message "rate limit"
    || says message "throttl"

unfoldable pub is_auth_failure : Option UpstreamError → Bool
is_auth_failure none = false
is_auth_failure (some (http status retry_after)) = status == 401 || status == 403
is_auth_failure (some (other message)) = false

unfoldable pub retry_after_seconds : Option UpstreamError → ℕ
retry_after_seconds none = 0
retry_after_seconds (some (http status retry_after)) = retry_after
retry_after_seconds (some (other message)) = 0

pub record AccountHealth : Type 0 where
  pub cooldown : Map String ℕ
  pub auth_fail : Map String Bool

abbrev pub new_account_health : AccountHealth
new_account_health = record { cooldown = []; auth_fail = [] }

abbrev pub window_or_default : ℕ → ℕ
window_or_default window = if window == 0 then 60 else window

unfoldable pub mark_failure : String → Option UpstreamError → ℕ → ℕ → AccountHealth → AccountHealth
mark_failure id e window now h =
    if is_auth_failure e
    then record h { auth_fail = insert id true h.auth_fail; cooldown = delete id h.cooldown }
    else if is_rate_limited e
    then record h {
      auth_fail = delete id h.auth_fail;
      cooldown = insert id (now + window_or_default window) h.cooldown;
    }
    else h

unfoldable pub mark_success : String → AccountHealth → AccountHealth
mark_success id h = record h { cooldown = delete id h.cooldown; auth_fail = delete id h.auth_fail }

-- A missing key of a map of booleans reads as false.
abbrev pub is_set : Option Bool → Bool
is_set none = false
is_set (some b) = b

abbrev pub is_over : Option ℕ → ℕ → Bool
is_over none now = true
is_over (some until) now = not (ltb now until)

unfoldable pub available : String → ℕ → AccountHealth → Bool
available id now h =
    if is_set (lookup id h.auth_fail) then false else is_over (lookup id h.cooldown) now
