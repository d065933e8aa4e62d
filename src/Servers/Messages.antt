-- ===== src/Servers/Messages.antt =====
-- pkg/servers/api.go: what the server reads of a request's messages before it asks the model: the
-- check of tool results, the messages of the current turn, the ledger of its tool calls, and what
-- is done with calls that are settled. `canon`, `signal` and `lower` are as in the ledger. Errors
-- are data in place of their texts.
pub mod Settled
pub mod Answered
use m365plus.Base.{
  ℕ, zero, suc, ◌+◌, String, Bool, true, false, not, ◌||◌, ◌&&◌, List, [], ◌∷◌, ◌++◌, map, Option,
  none, some, ltb, ◌==◌, nat_eq, string_eq, bytes_eq, if◌then◌else◌, Bytes,
}
use m365plus.Base.Text.{codes, trim_space}
use m365plus.ToolCalling.Ledger.{LedgerCall, LedgerResult, Ledger, build_ledger, filter_repeated}

pub record ToolCall : Type 0 where
  pub id : String
  pub name : Bytes
  pub arguments : Bytes

pub record ToolResult : Type 0 where
  pub id : String
  pub content : Bytes

pub record Message : Type 0 where
  pub role : String
  pub tool_calls : List ToolCall
  pub tool_results : List ToolResult
  pub tool_call_id : String
  pub tool_progress : Bool

abbrev pub no_calls : List ToolCall → Bool
no_calls [] = true
no_calls (_ ∷ _) = false

abbrev pub no_results : List ToolResult → Bool
no_results [] = true
no_results (_ ∷ _) = false

-- Whether a message is one that the user wrote.
unfoldable pub starts_turn : Message → Bool
starts_turn m = not (not (m.role == "user") || not (no_results m.tool_results) || m.tool_progress)

-- The messages from the last one that starts a turn, or `from` if none does.
unfoldable pub active_from : List Message → List Message → List Message
active_from from [] = from
active_from from (m ∷ ms) = active_from (if starts_turn m then m ∷ ms else from) ms

unfoldable pub active_tool_messages : List Message → List Message
active_tool_messages messages = active_from messages messages

abbrev pub ledger_calls : List Message → List LedgerCall
ledger_calls [] = []
ledger_calls (m ∷ ms) =
    map (λ c. record { id = c.id; name = c.name; arguments = c.arguments }) m.tool_calls
    ++ ledger_calls ms

abbrev pub ledger_results : List Message → List LedgerResult
ledger_results [] = []
ledger_results (m ∷ ms) =
    map (λ r. record { id = r.id; content = r.content }) m.tool_results ++ ledger_results ms

unfoldable pub rounds_of : List Message → ℕ
rounds_of [] = 0
rounds_of (m ∷ ms) = let rest = rounds_of ms in if no_calls m.tool_calls then rest else rest + 1

pub data ResultError : Type 0 where
  declared_twice : String → ResultError
  missing_call_id : ResultError
  result_without_id : ResultError
  answers_nothing : String → ResultError
  answered_twice : String → ResultError

unfoldable pub has_id : String → List String → Bool
has_id id [] = false
has_id id (j ∷ js) = j == id || has_id id js

-- The first component is the error, if there is one, the second the ids.
unfoldable pub declare_calls : List ToolCall → List String → Option ResultError × List String
declare_calls [] known = (none, known)
declare_calls (c ∷ cs) known =
    let after = declare_calls cs (if c.id == "" then known else c.id ∷ known) in
    if c.id == ""
    then after
    else if has_id c.id known
    then (some (declared_twice c.id), known)
    else after

abbrev pub if_no_error :
    Option ResultError × List String
    → (List String → Option ResultError × List String)
    → Option ResultError × List String
if_no_error (none, ids) go = go ids
if_no_error (some e, ids) go = (some e, ids)

unfoldable pub declare_all : List Message → List String → Option ResultError × List String
declare_all [] known = (none, known)
declare_all (m ∷ ms) known = if_no_error (declare_calls m.tool_calls known) (declare_all ms)

abbrev pub is_nothing : List String → Bool
is_nothing [] = true
is_nothing (_ ∷ _) = false

unfoldable pub answer_results :
    List String → List ToolResult → List String → Option ResultError × List String
answer_results known [] answered = (none, answered)
answer_results known (r ∷ rs) answered =
    let after = answer_results known rs (r.id ∷ answered) in
    if r.id == ""
    then (some result_without_id, answered)
    else if not (is_nothing known) && not (has_id r.id known)
    then (some (answers_nothing r.id), answered)
    else if has_id r.id answered
    then (some (answered_twice r.id), answered)
    else after

unfoldable pub answer_all :
    List String → List Message → List String → Option ResultError × List String
answer_all known [] answered = (none, answered)
answer_all known (m ∷ ms) answered =
    let after = if_no_error (answer_results known m.tool_results answered) (answer_all known ms) in
    if m.role == "tool" && m.tool_call_id == "" then (some missing_call_id, answered) else after

unfoldable pub validate_tool_result_messages : List Message → Option ResultError
validate_tool_result_messages messages =
    (if_no_error (declare_all messages []) (λ known. answer_all known messages [])).0

-- `toolChoiceForcesACall`.
unfoldable pub tool_choice_forces_a_call : String → Bool
tool_choice_forces_a_call choice = not (choice == "" || choice == "auto" || choice == "none")

-- The result of a parse, as far as settled calls change it.
pub record Parsed : Type 0 where
  pub content : Bytes
  pub tool_calls : List LedgerCall
  pub finish_reason : Bytes

abbrev pub default_max_tool_rounds : ℕ
default_max_tool_rounds = 32

-- A limit of 0 stands for one that is not positive.
unfoldable pub exceeded_tool_round_limit : ℕ → Ledger → Bool
exceeded_tool_round_limit limit ledger =
    ltb (if limit == 0 then default_max_tool_rounds else limit) ledger.rounds

abbrev pub no_ledger_calls : List LedgerCall → Bool
no_ledger_calls [] = true
no_ledger_calls (_ ∷ _) = false

module _ (canon : Bytes → Option Bytes) where
  -- `buildToolLedger`.
  abbrev pub build_tool_ledger : (Bytes → Bool) → (Bytes → Bytes) → List Message → Ledger
  build_tool_ledger signal lower messages =
      let active = active_tool_messages messages in
      build_ledger canon signal lower (ledger_calls active) (ledger_results active)
        (rounds_of active)

  module _ (repeated_calls_notice : Bytes) where
    abbrev pub without_settled : List LedgerCall → Parsed → Parsed
    without_settled kept p = record {
      content =
          if no_ledger_calls kept && trim_space p.content == []
          then repeated_calls_notice
          else p.content;
      tool_calls = kept;
      finish_reason = if no_ledger_calls kept then codes "stop" else p.finish_reason;
    }

    unfoldable pub drop_settled_tool_calls : Ledger → String → Parsed → Parsed
    drop_settled_tool_calls ledger choice p =
        let (kept, dropped) = filter_repeated canon ledger p.tool_calls in
        if no_ledger_calls p.tool_calls || tool_choice_forces_a_call choice
        then p
        else if no_ledger_calls dropped
        then p
        else without_settled kept p
