-- ===== src/WebAdmin/AccountHealth/History.antt =====
-- Whether an account may be used, read off the history of its requests.
use m365plus.Base.{
  ℕ, ◌+◌, ◌≡◌, refl, String, Bool, true, false, not, List, [], ◌∷◌, Option, arith, ltb, ◌==◌,
  ==_iff, string_eq, if◌then◌else◌,
}
use m365plus.Base.Map.{lookup, lookup-insert, lookup-delete}
use m365plus.WebAdmin.AccountHealth.{
  UpstreamError, is_rate_limited, is_auth_failure, AccountHealth, new_account_health,
  window_or_default, mark_failure, mark_success, available,
}

pub data Outcome : Type 0 where
  success : Outcome
  failure : Option UpstreamError → ℕ → ℕ → Outcome

-- The requests so far, the last one first, each with its account.
abbrev pub Requests : Type 0
Requests = List (String × Outcome)

unfoldable pub record_outcome : String × Outcome → AccountHealth → AccountHealth
record_outcome (id, success) h = mark_success id h
record_outcome (id, failure e window now) h = mark_failure id e window now h

unfoldable pub after : Requests → AccountHealth
after [] = new_account_health
after (r ∷ rs) = record_outcome r (after rs)

-- The last request of the account that was a success, an auth failure or a rate limit decides.
abbrev pub verdict : String → ℕ → Requests → Bool
verdict id now [] = true
verdict id now ((j, success) ∷ rs) = if j == id then true else verdict id now rs
verdict id now ((j, failure e window at) ∷ rs) =
    let before = verdict id now rs in
    if j == id
    then (if is_auth_failure e
        then false
        else if is_rate_limited e
        then not (ltb now (at + window_or_default window))
        else before)
    else before

record_outcome-available :
    (id : String) (now : ℕ) (j : String) (o : Outcome) (rs : Requests) (h : AccountHealth)
    → available id now h ≡ verdict id now rs
    → available id now (record_outcome (j, o) h) ≡ verdict id now ((j, o) ∷ rs)
unfolding available record_outcome mark_success mark_failure
record_outcome-available id now j success rs h e =
    ground (arith, ==_iff j id, lookup-delete j id h.cooldown, lookup-delete j id h.auth_fail)
record_outcome-available id now j (failure err window at) rs h e =
    let until = at + window_or_default window in
    ground (
      arith,
      ==_iff j id,
      lookup-delete j id h.cooldown,
      lookup-delete j id h.auth_fail,
      lookup-insert j id true h.auth_fail,
      lookup-insert j id until h.cooldown,
    )

-- An account is available exactly if its history says so: after an auth failure only once a
-- success, or a rate limit that has run out, has followed; after a rate limit once its window has
-- passed; other errors, and the requests of other accounts, change nothing.
pub available-after :
    (id : String) (now : ℕ) (rs : Requests) → available id now (after rs) ≡ verdict id now rs
unfolding after
available-after id now [] = unfold available lookup in refl
available-after id now ((j, o) ∷ rs) =
    record_outcome-available id now j o rs (after rs) (available-after id now rs)
