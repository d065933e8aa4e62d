-- ===== src/WebAdmin/UsageLog.antt =====
-- pkg/webadmin/usage.go: the log of usage and its batches. `flush` lets the lock go while it
-- writes, so it is two steps; `writeMu` of persist.go admits one flush at a time. The file is its
-- records: a write that fails may have appended some of the batch, and is taken to have stopped
-- between two of them.
use m365plus.Base.{
  ℕ, ◌+◌, ◌-◌, ◌≤◌, ◌≡◌, Bool, true, false, List, [], ◌∷◌, ◌++◌, Option, none, some, arith, ltb,
  if◌then◌else◌, length, take, drop, length-drop,
}
use mathlib.Core.List.{Sublist}
use mathlib.Core.List.Sublist as Sublists

abbrev pub max_usage_records : ℕ
max_usage_records = 50_000

-- `batch` is what a flush has taken out and is writing, `file` the records in the file.
pub record UsageLog (R : Type 0) : Type 0 where
  pub records : List R
  pub pending : List R
  pub batch : Option (List R)
  pub file : List R
  pub dirty : Bool

-- How the writing of a batch ends.
pub data Ending : Type 0 where
  no_file : Ending
  not_written : ℕ → Ending
  written : Ending

module _ {R : Type 0} where
  unfoldable pub trim : List R → List R
  trim rs =
      if ltb max_usage_records (length rs) then drop (length rs - max_usage_records) rs else rs

  unfoldable pub load : List R → UsageLog R
  load file = record { records = trim file; pending = []; batch = none; file = file; dirty = false }

  unfoldable pub record_usage : R → UsageLog R → UsageLog R
  record_usage r s = record s {
    records = trim (s.records ++ r ∷ []);
    pending = s.pending ++ r ∷ [];
    dirty = true;
  }

  -- The first half of `flush`; an empty batch ends at once.
  unfoldable pub take_batch : UsageLog R → UsageLog R
  take_batch s = record s {
    pending = [];
    batch = if ltb 0 (length s.pending) then some s.pending else none;
  }

  -- The second half: a file that does not open drops the batch; a failed write, which has appended
  -- the first `k` records of the batch, puts it back whole.
  unfoldable pub end_batch : Ending → List R → UsageLog R → UsageLog R
  end_batch no_file b s = record s { batch = none }
  end_batch (not_written k) b s = record s {
    pending = b ++ s.pending;
    batch = none;
    file = s.file ++ take k b;
  }
  end_batch written b s = record s { file = s.file ++ b; batch = none }

  -- What may happen next; the list is the records logged by it, the number that of the records
  -- appended by a write that failed.
  pub data Step : UsageLog R → List R → ℕ → UsageLog R → Type 0 where
    logs : {s : UsageLog R} (r : R) → Step s (r ∷ []) 0 (record_usage r s)
    takes : {s : UsageLog R} → s.batch ≡ none → Step s [] 0 (take_batch s)
    fails :
        {s : UsageLog R} (b : List R) (k : ℕ)
        → s.batch ≡ some b
        → Step s [] (length (take k b)) (end_batch (not_written k) b s)
    ends : {s : UsageLog R} (b : List R) → s.batch ≡ some b → Step s [] 0 (end_batch written b s)

  pub data Reach (s : UsageLog R) : List R → ℕ → UsageLog R → Type 0 where
    here : Reach s [] 0 s
    next :
        {rs qs : List R} {n m : ℕ} {t u : UsageLog R}
        → Reach s rs n t
        → Step t qs m u
        → Reach s (rs ++ qs) (n + m) u

  abbrev pub taken : Option (List R) → List R
  taken none = []
  taken (some b) = b

  -- The records of the log, those of the file first.
  abbrev pub all_records : UsageLog R → List R
  all_records s = s.file ++ (taken s.batch ++ s.pending)

  length-trim : (rs : List R) → length (trim rs) ≤ max_usage_records
  unfolding trim
  length-trim rs = ground (arith, length-drop (length rs - max_usage_records) rs)

  -- The records of the second log begin with those of the first, and hold the given ones after
  -- them, in order, among so many more.
  abbrev pub Keeps : UsageLog R → List R → ℕ → UsageLog R → Type 0
  Keeps s rs n t =
      Sublist (all_records s ++ rs) (all_records t)
      × (length (all_records t) ≡ length (all_records s ++ rs) + n)

  -- The log in memory never holds more than its limit.
  pub record_usage-bounded :
      (r : R) (s : UsageLog R) → length (record_usage r s).records ≤ max_usage_records
  unfolding record_usage
  record_usage-bounded r s = length-trim (s.records ++ r ∷ [])
