-- ===== src/ToolCalling/Ledger.antt =====
-- pkg/toolcalling/ledger.go: the evidence of a tool loop. `canon` is `json.Unmarshal` into `any`
-- followed by `json.Marshal`, none where the text is not JSON; `signal` is the regular expression
-- `failureSignal`; `lower` is `strings.ToLower`, whose tables of Unicode are no part of the model.
pub mod Compact
pub mod Build
pub mod Repeats
use m365plus.Base.{
  ℕ, zero, suc, ◌+◌, ◌-◌, ◌/◌, ◌%◌, max, String, Bool, true, false, not, ◌&&◌, ◌||◌, List, [], ◌∷◌,
  ◌++◌, Option, none, some, ltb, leb, ◌==◌, nat_eq, string_eq, bytes_eq, if◌then◌else◌, length,
  take, drop, filterb, Bytes,
}
use m365plus.Base.Map.{Map, lookup, insert}
use m365plus.Base.Text.{codes, trim_space}

abbrev pub max_failure_signature : ℕ
max_failure_signature = 500

abbrev pub max_evidence_result : ℕ
max_evidence_result = 4000

abbrev pub min_evidence_tail : ℕ
min_evidence_tail = 80

pub record ToolEvidence : Type 0 where
  pub id : String
  pub name : Bytes
  pub arguments : Bytes
  pub result : Bytes
  pub failed : Bool

pub record LedgerCall : Type 0 where
  pub id : String
  pub name : Bytes
  pub arguments : Bytes

pub record LedgerResult : Type 0 where
  pub id : String
  pub content : Bytes

pub record Ledger : Type 0 where
  pub completed : List ToolEvidence
  pub pending : List ToolEvidence
  pub rounds : ℕ
  pub repeated_call : Bool
  pub repeated_failure : Bool
  pub repetition_signature : Bytes

-- `strconv.Itoa`, of a number of at most `fuel` digits.
unfoldable pub itoa_fuel : ℕ → ℕ → Bytes
itoa_fuel zero n = []
itoa_fuel (suc fuel) n =
    let high = itoa_fuel fuel (n / 10) in
    if ltb n 10 then (48 + n) ∷ [] else high ++ (48 + n % 10) ∷ []

-- A length is an int of 64 bits, of at most 19 digits.
abbrev pub itoa : ℕ → Bytes
itoa n = itoa_fuel 19 n

unfoldable pub compact_result : Bytes → Bytes
compact_result result =
    let trimmed = trim_space result in
    let head = max_evidence_result / 3 in
    let tail = max (max_evidence_result - head - min_evidence_tail) min_evidence_tail in
    let removed = length trimmed - head - tail in
    if leb (length trimmed) max_evidence_result
    then trimmed
    else take head trimmed
      ++ (codes "\n... [truncated "
          ++ (itoa removed ++ (codes " bytes] ...\n" ++ drop (length trimmed - tail) trimmed)))

abbrev pub is_digit : ℕ → Bool
is_digit c = leb b'0' c && leb c b'9'

-- `digitRun.ReplaceAllString(s, "#")`; the flag says that a run is open.
unfoldable pub collapse_digits : Bool → Bytes → Bytes
collapse_digits open_run [] = []
collapse_digits open_run (c ∷ s) =
    let inside = collapse_digits true s in
    let outside = collapse_digits false s in
    if is_digit c then (if open_run then inside else b'#' ∷ inside) else c ∷ outside

-- The map of the results by id; a result with an empty id is left out, and a later one wins.
unfoldable pub results_by_id : List LedgerResult → Map String Bytes → Map String Bytes
results_by_id [] m = m
results_by_id (r ∷ rs) m = results_by_id rs (if r.id == "" then m else insert r.id r.content m)

abbrev pub seen : Bytes → Map Bytes Bool → Bool
seen k m = elim (lookup k m) [ none ↦ false | some b ↦ b ]

-- The variables of the loop of `BuildLedger`.
pub record Building : Type 0 where
  pub ledger : Ledger
  pub seen_call : Map Bytes Bool
  pub seen_failure : Map Bytes Bool

abbrev pub pending_evidence : LedgerCall → ToolEvidence
pending_evidence c = record {
  id = c.id;
  name = c.name;
  arguments = c.arguments;
  result = [];
  failed = false;
}

module _ (canon : Bytes → Option Bytes) where
  unfoldable pub canonical_arguments : Bytes → Bytes
  canonical_arguments arguments =
      let trimmed = trim_space arguments in
      if trimmed == [] then [] else elim (canon trimmed) [ none ↦ trimmed | some encoded ↦ encoded ]

  unfoldable pub call_signature : Bytes → Bytes → Bytes
  call_signature name arguments = name ++ 0 ∷ canonical_arguments arguments

  unfoldable pub completed_count : Ledger → Bytes → Bytes → ℕ
  completed_count l name arguments = length (
      filterb (λ e. call_signature e.name e.arguments == call_signature name arguments) l.completed)

  -- What `FilterRepeated` keeps of a call.
  abbrev pub is_settled : Ledger → LedgerCall → Bool
  is_settled l c = leb 2 (completed_count l c.name c.arguments)

  unfoldable pub filter_repeated : Ledger → List LedgerCall → List LedgerCall × List LedgerCall
  filter_repeated l calls =
      if length l.completed == 0
      then (calls, [])
      else (filterb (λ c. not (is_settled l c)) calls, filterb (is_settled l) calls)

  module _ (signal : Bytes → Bool) (lower : Bytes → Bytes) where
    unfoldable pub normalize_failure : Bytes → Bytes
    normalize_failure result =
        let normalized = collapse_digits false (lower (trim_space result)) in
        if ltb max_failure_signature (length normalized)
        then take max_failure_signature normalized
        else normalized

    abbrev pub completed_evidence : LedgerCall → Bytes → ToolEvidence
    completed_evidence c result = record {
      id = c.id;
      name = c.name;
      arguments = c.arguments;
      result = compact_result result;
      failed = signal result;
    }

    -- The part of the loop that looks for repeats, on a call with its result.
    unfoldable pub note_repeats : LedgerCall → Bytes → Building → Building
    note_repeats c result b =
        let signature = call_signature c.name c.arguments in
        let again = seen signature b.seen_call in
        let l = b.ledger in
        let key = signature ++ 0 ∷ normalize_failure result in
        let first = if l.repetition_signature == [] then c.name else l.repetition_signature in
        let l' : Ledger = record l {
          repeated_call = l.repeated_call || again;
          repetition_signature = if again then first else l.repetition_signature;
        } in
        let seen_call = insert signature true b.seen_call in
        if not (signal result)
        then record { ledger = l'; seen_call = seen_call; seen_failure = b.seen_failure }
        else let failed_again = seen key b.seen_failure in
          record {
            ledger = record l' {
              repeated_failure = l.repeated_failure || failed_again;
              repetition_signature = if failed_again then c.name else l'.repetition_signature;
            };
            seen_call = seen_call;
            seen_failure = insert key true b.seen_failure;
          }

    abbrev pub add_pending : ToolEvidence → Building → Building
    add_pending e b = record b {
      ledger = record (b.ledger) { pending = b.ledger.pending ++ e ∷ [] };
    }

    abbrev pub add_completed : ToolEvidence → Building → Building
    add_completed e b = record b {
      ledger = record (b.ledger) { completed = b.ledger.completed ++ e ∷ [] };
    }

    unfoldable pub build_step : Map String Bytes → LedgerCall → Building → Building
    build_step results c b = elim (lookup c.id results) [
      | none ↦ add_pending (pending_evidence c) b
      | some result ↦ note_repeats c result (add_completed (completed_evidence c result) b)
    ]

    unfoldable pub build_loop : Map String Bytes → List LedgerCall → Building → Building
    build_loop results [] b = b
    build_loop results (c ∷ cs) b = build_loop results cs (build_step results c b)

    abbrev pub empty_building : ℕ → Building
    empty_building rounds = record {
      ledger = record {
        completed = [];
        pending = [];
        rounds = rounds;
        repeated_call = false;
        repeated_failure = false;
        repetition_signature = [];
      };
      seen_call = [];
      seen_failure = [];
    }

    unfoldable pub build_ledger : List LedgerCall → List LedgerResult → ℕ → Ledger
    build_ledger calls results rounds =
        (build_loop (results_by_id results []) calls (empty_building rounds)).ledger
