-- ===== src/Tests/Admin.antt =====
-- Runs of the theorems on the stores and the health state of the admin plane.
use m365plus.Base.{
  ℕ, ◌≡◌, refl, String, true, false, not, ◌&&◌, [], ◌∷◌, none, some, ==_apart, ◌==◌, string_eq,
  if◌then◌else◌, arith,
}
use m365plus.Base.Map.{lookup}
use m365plus.WebAdmin.AccountHealth.{http, available}
use m365plus.WebAdmin.AccountHealth.History.{
  Requests, success, failure, after, verdict, available-after,
}
use m365plus.WebAdmin.Persist.{
  PersistStore, change, mark_dirty, flush_pending, take_snapshot, end_flush, here, next, changes,
  marks, pending, snapshots, ends, disk-memory,
}
use m365plus.WebAdmin.Logins.{Attempts, login_allowed, record_login_failure}
use m365plus.WebAdmin.Logins.Lockout.{fail_each, locked_out}
use m365plus.WebAdmin.UsageLog
use m365plus.WebAdmin.UsageLog.{take_batch, end_batch, record_usage, not_written}
use m365plus.WebAdmin.Keys
use m365plus.WebAdmin.Keys.{ApiKeyRecord, NewKey, not_saved}
use m365plus.WebAdmin.Keys.Rollback.{update_full_kept}
use m365plus.WebAdmin.Keys.Lifecycle.{has_hash, revoke-valid}

abbrev requests : Requests
requests =
    ("a", failure (some (http 429 0)) 0 10)
    ∷ ("a", success)
    ∷ ("b", failure (some (http 401 0)) 0 5)
    ∷ []

available-after_example : available "a" 30 (after requests) ≡ verdict "a" 30 requests
available-after_example = available-after "a" 30 requests

abbrev saved_store : PersistStore ℕ
saved_store = record {
  dirty = false;
  waiting = 0;
  writing = none;
  memory = 1;
  disk = 1;
  untold = false;
}

abbrev changed_store : PersistStore ℕ
changed_store = mark_dirty (change 2 saved_store)

abbrev flushed_store : PersistStore ℕ
flushed_store = end_flush true 2 (take_snapshot (flush_pending changed_store))

disk-memory_example : flushed_store.disk ≡ flushed_store.memory
unfolding change mark_dirty flush_pending take_snapshot end_flush
disk-memory_example =
    disk-memory saved_store flushed_store refl refl
      (next (next (next (next (next here (changes 2)) marks) pending) (snapshots 0 refl refl))
        (ends 2 true refl))
      refl refl refl refl

abbrev hashed : String → String
hashed s = if ◌==◌ {A = String} s "k1" then "h1" else "h2"

abbrev new_key : NewKey
new_key = record { id = "n"; prefix = "k2"; raw = "k2" }

abbrev stored_key : ApiKeyRecord
stored_key = record {
  id = "i";
  name = "one";
  prefix = "k1";
  hash = "h1";
  raw = "";
  account_id = "a";
  created_at = 1;
  last_used_at = none;
  revoked = false;
}

abbrev plain_key : ApiKeyRecord
plain_key = record stored_key { id = "p"; hash = ""; raw = "k1" }

update_full_kept_example :
    let (answer, left) = Keys.update_full "i" "new" none "" false (stored_key ∷ []) in
    (answer ≡ not_saved)
    × (Keys.find_first (Keys.is_id "i") left ≡ some (Keys.apply_update "new" none "" stored_key))
    × ((Keys.apply_update "new" none "" stored_key).name ≡ "new")
unfolding Keys.find_first
update_full_kept_example =
    update_full_kept "i" "new" "" none (stored_key ∷ []) stored_key refl (==_apart "new" "" refl)

revoke-valid_example :
    (Keys.valid hashed "k1" 9 (Keys.revoke "i" true (stored_key ∷ [])).1).0
    ≡ ((Keys.valid hashed "k1" 9 (stored_key ∷ [])).0 && not (◌==◌ {A = String} "h1" "h1"))
unfolding Keys.find_first has_hash
revoke-valid_example = revoke-valid hashed "i" "k1" 9 (stored_key ∷ []) stored_key (refl, tt) refl

abbrev no_attempts : Attempts
no_attempts = []

locked_out_example :
    (login_allowed "ip" 999
      (fail_each "ip" (104 ∷ 103 ∷ 102 ∷ 101 ∷ []) (record_login_failure "ip" 100 no_attempts))).0
    ≡ false
unfolding lookup
locked_out_example =
    locked_out "ip" 100 104 999 (103 ∷ 102 ∷ 101 ∷ []) no_attempts (omega arith) refl (omega arith)
      (omega arith, (omega arith, (omega arith, (omega arith, tt)))) (omega arith) (omega arith)

abbrev empty_log : UsageLog.UsageLog ℕ
empty_log = record { records = []; pending = []; batch = none; file = []; dirty = false }

abbrev one_logged : UsageLog.UsageLog ℕ
one_logged = record_usage 5 empty_log

abbrev retried : UsageLog.UsageLog ℕ
retried = end_batch (not_written 1) (5 ∷ []) (take_batch one_logged)
