-- ===== src/ToolCalling/Simulated/Parse.antt =====
-- pkg/toolcalling/simulated.go: the tool calls and the content of the best candidate.
use m365plus.Base.{
  ℕ, ◌+◌, Bool, true, false, not, ◌||◌, List, [], ◌∷◌, ◌++◌, Option, none, some, ◌==◌, nat_eq,
  bytes_eq, if◌then◌else◌, Bytes,
}
use m365plus.Base.Text.{codes, trim_space}
use m365plus.ToolCalling.Json.{
  Json, null, bool, num, str, arr, obj, Items, nil, cons, Fields, get, as_arr, as_obj, or_end,
  or_nil,
}
use m365plus.ToolCalling.Envelope.{join_lines}
use m365plus.ToolCalling.Contracts.{ToolContracts, Reason, Validated, no_names, validate}
use m365plus.ToolCalling.Candidates.{enumerate_json_candidates}
use m365plus.ToolCalling.Simulated.{
  ToolCall, SimulatedResult, no_payload, text_at, is_set, arguments_in, normalize_message_content,
  score_simulated_candidate, score_anthropic_candidate, choose, usable,
}

-- What a parse has found, and how many ids it has drawn.
pub record Parsing : Type 0 where
  pub result : SimulatedResult
  pub drawn : ℕ

pub record CallFields : Type 0 where
  pub name : Bytes
  pub namespace : Bytes
  pub arguments : Bytes

abbrev pub first_text : Bytes → Bytes → Bytes
first_text a b = if a == [] then b else a

abbrev pub has_name : Bytes → List Bytes → Bool
has_name n [] = false
has_name n (m ∷ ms) = trim_space m == n || has_name n ms

-- The filter by declared names, which no names turn off.
abbrev pub is_allowed : List Bytes → Bytes → Bool
is_allowed allowed name = no_names allowed || has_name name allowed

-- A call that `validate` accepts is forwarded; one whose rejection can be repaired is recorded.
abbrev pub settle_by :
    Option Reason → Validated → Bytes → Bytes → Bytes → SimulatedResult → SimulatedResult
settle_by none v id name namespace result = record result {
  tool_calls =
      result.tool_calls
      ++ record { id = id; name = name; namespace = namespace; arguments = v.arguments } ∷ [];
}
settle_by (some reason) v id name namespace result =
    if v.repairable
    then record result {
      dropped_calls = result.dropped_calls ++ record { name = name; reason = reason } ∷ [];
    }
    else result

abbrev pub settle : Validated → Bytes → Bytes → Bytes → SimulatedResult → SimulatedResult
settle v id name namespace result = settle_by v.reason v id name namespace result

-- A finish reason of calls where none are left.
abbrev pub no_calls_left : SimulatedResult → Bytes
no_calls_left result =
    if result.finish_reason == codes "tool_calls" then codes "stop" else result.finish_reason

module _ (encode : Json → Bytes) (decode : Bytes → Option Json) (mint : ℕ → Bytes) where
  unfoldable pub normalize_arguments_json : Option Json → Bytes
  normalize_arguments_json none = codes "{}"
  normalize_arguments_json (some null) = codes "{}"
  normalize_arguments_json (some (str s)) = if trim_space s == [] then codes "{}" else trim_space s
  normalize_arguments_json (some (arr xs)) = encode (arr xs)
  normalize_arguments_json (some (obj fs)) = encode (obj fs)
  normalize_arguments_json (some (bool b)) = encode (bool b)
  normalize_arguments_json (some (num n)) = encode (num n)

  unfoldable pub extract_tool_call_fields : Fields → CallFields
  extract_tool_call_fields tc =
      let fn = or_end (as_obj (get (codes "function") tc)) in
      record {
        name = first_text (text_at (codes "name") fn) (text_at (codes "name") tc);
        namespace = first_text (text_at (codes "namespace") fn) (text_at (codes "namespace") tc);
        arguments =
            normalize_arguments_json
              (if is_set (arguments_in fn) then arguments_in fn else arguments_in tc);
      }

  module _ (allowed : List Bytes) (contracts : ToolContracts) where
    -- One entry of `tool_calls`.
    abbrev pub take_entry : Json → Parsing → Parsing
    take_entry (obj tc) p =
        let call = extract_tool_call_fields tc in
        let v = validate encode decode contracts call.name call.arguments in
        let result =
          if call.name == []
          then p.result
          else if not (is_allowed allowed call.name)
          then p.result
          else settle v (mint p.drawn) call.name call.namespace p.result in
        record { result = result; drawn = p.drawn + 1 }
    take_entry null p = p
    take_entry (bool _) p = p
    take_entry (num _) p = p
    take_entry (str _) p = p
    take_entry (arr _) p = p

    unfoldable pub take_entries : Items → Parsing → Parsing
    take_entries nil p = p
    take_entries (cons entry rest) p = take_entries rest (take_entry entry p)

    -- What follows the loop over the entries.
    abbrev pub finish_calls : Bool → Option Json → List ToolCall → SimulatedResult → SimulatedResult
    finish_calls preserve content [] result = record result {
      content = normalize_message_content content;
      finish_reason = no_calls_left result;
    }
    finish_calls preserve content (c ∷ cs) result = record result {
      content = if preserve then normalize_message_content content else [];
      finish_reason = codes "tool_calls";
    }

    abbrev pub parse_calls : Bool → Option Json → Items → SimulatedResult → SimulatedResult
    parse_calls preserve content nil result = record result {
      content = normalize_message_content content;
    }
    parse_calls preserve content (cons entry rest) result =
        let taken =
          (take_entries (cons entry rest) (record { result = result; drawn = 0 })).result in
        finish_calls preserve content taken.tool_calls taken

    abbrev pub parse_message : Bool → Option Fields → SimulatedResult → SimulatedResult
    parse_message preserve none result = result
    parse_message preserve (some message) result =
        parse_calls preserve (get (codes "content") message)
          (or_nil (as_arr (get (codes "tool_calls") message))) result

    abbrev pub parse_choice : Bool → Option Fields → SimulatedResult → SimulatedResult
    parse_choice preserve none result = result
    parse_choice preserve (some first) result =
        parse_message preserve (as_obj (get (codes "message") first)) (record result {
          finish_reason = first_text (text_at (codes "finish_reason") first) result.finish_reason;
        })

    abbrev pub parse_choices : Bool → Items → SimulatedResult → SimulatedResult
    parse_choices preserve nil result = result
    parse_choices preserve (cons choice rest) result =
        parse_choice preserve (as_obj (some choice)) result

    unfoldable pub parse_chat_completion_payload : Bool → Fields → SimulatedResult → SimulatedResult
    parse_chat_completion_payload preserve payload result =
        parse_choices preserve (or_nil (as_arr (get (codes "choices") payload))) result

    abbrev pub input_text : Option Json → Bytes
    input_text o = elim o [
      | none ↦ codes "{}"
      | some v ↦ (if is_set (some v) then encode v else codes "{}")
    ]

    -- One content block; the second component is the text so far.
    abbrev pub take_tool_use : Fields → Parsing → Parsing
    take_tool_use block p =
        let name = text_at (codes "name") block in
        let v = validate encode decode contracts name (input_text (get (codes "input") block)) in
        if name == []
        then p
        else if not (is_allowed allowed name)
        then p
        else record { result = settle v (mint p.drawn) name [] p.result; drawn = p.drawn + 1 }

    abbrev pub take_text : Bytes → List Bytes → List Bytes
    take_text t parts = if t == [] then parts else parts ++ t ∷ []

    abbrev pub take_block : Json → Parsing × List Bytes → Parsing × List Bytes
    take_block (obj block) (p, parts) =
        if text_at (codes "type") block == codes "text"
        then (p, take_text (text_at (codes "text") block) parts)
        else if text_at (codes "type") block == codes "tool_use"
        then (take_tool_use block p, parts)
        else (p, parts)
    take_block null s = s
    take_block (bool _) s = s
    take_block (num _) s = s
    take_block (str _) s = s
    take_block (arr _) s = s

    unfoldable pub take_blocks : Items → Parsing × List Bytes → Parsing × List Bytes
    take_blocks nil s = s
    take_blocks (cons block rest) s = take_blocks rest (take_block block s)

    abbrev pub finish_blocks : List Bytes → List ToolCall → SimulatedResult → SimulatedResult
    finish_blocks parts [] result = record result {
      content = join_lines parts;
      finish_reason = no_calls_left result;
    }
    finish_blocks parts (c ∷ cs) result = record result {
      content = [];
      finish_reason = codes "tool_calls";
    }

    abbrev pub parse_content : Items → Fields → SimulatedResult → SimulatedResult
    parse_content nil payload result = record result {
      content = first_text (text_at (codes "text") payload) result.content;
    }
    parse_content (cons block rest) payload result =
        let (p, parts) =
          take_blocks (cons block rest) (record { result = result; drawn = 0 }, []) in
        finish_blocks parts p.result.tool_calls p.result

    unfoldable pub parse_anthropic_payload : Fields → SimulatedResult → SimulatedResult
    parse_anthropic_payload payload result =
        let stop_reason = text_at (codes "stop_reason") payload in
        parse_content (or_nil (as_arr (get (codes "content") payload))) payload (record result {
          finish_reason =
              if stop_reason == []
              then result.finish_reason
              else if stop_reason == codes "tool_use"
              then codes "tool_calls"
              else codes "stop";
        })

    abbrev pub parsed_or_none :
        (Fields → SimulatedResult → SimulatedResult) → Option Fields → SimulatedResult
    parsed_or_none parse none = no_payload
    parsed_or_none parse (some best) = parse best (record no_payload { has_payload = true })

    -- `parseSimulatedResponse`; the flag is `preserveToolContent`.
    unfoldable pub parse_simulated_response : Bool → Bytes → SimulatedResult
    parse_simulated_response preserve text =
        parsed_or_none (parse_chat_completion_payload preserve) (
          usable 180
            (choose decode score_simulated_candidate (enumerate_json_candidates text) none))

    unfoldable pub parse_simulated_response_anthropic : Bytes → SimulatedResult
    parse_simulated_response_anthropic text =
        parsed_or_none parse_anthropic_payload (
          usable 280
            (choose decode score_anthropic_candidate (enumerate_json_candidates text) none))
