-- ===== src/ToolCalling/Simulated.antt =====
-- pkg/toolcalling/simulated.go: the reading of a model's answer as a response of OpenAI's or of
-- Anthropic's API. `encode` and `decode` are as in Contracts; `mint` gives the tool call ids in the
-- order in which they are drawn. A score stands with what it may be lowered by added, so that it is
-- no less than 0: 180 for OpenAI and 280 for Anthropic.
pub mod Parse
pub mod Forwarded
pub mod Chosen
use m365plus.Base.{
  ℕ, zero, suc, ◌+◌, Bool, true, false, not, ◌&&◌, ◌||◌, List, [], ◌∷◌, ◌++◌, map, Option, none,
  some, ltb, ◌==◌, nat_eq, bytes_eq, if◌then◌else◌, Bytes,
}
use m365plus.Base.Text.{codes, trim_space, to_lower, has_prefix}
use m365plus.ToolCalling.Json.{
  Number, Json, null, bool, num, str, arr, obj, Items, nil, cons, Fields, end, field, get, has,
  as_str, as_arr, as_obj, or_empty, or_end, or_nil, is_nil,
}
use m365plus.ToolCalling.Envelope.{join_lines}
use m365plus.ToolCalling.Contracts.{
  ToolContracts, Reason, Validated, Decoded, nil_map, map_of, failed, as_map, no_names, validate,
}
use m365plus.ToolCalling.Candidates.{enumerate_json_candidates}

pub record ToolCall : Type 0 where
  pub id : Bytes
  pub name : Bytes
  pub namespace : Bytes
  pub arguments : Bytes

pub record DroppedCall : Type 0 where
  pub name : Bytes
  pub reason : Reason

pub record SimulatedResult : Type 0 where
  pub content : Bytes
  pub tool_calls : List ToolCall
  pub finish_reason : Bytes
  pub has_payload : Bool
  pub dropped_calls : List DroppedCall

abbrev pub no_payload : SimulatedResult
no_payload = record {
  content = [];
  tool_calls = [];
  finish_reason = codes "stop";
  has_payload = false;
  dropped_calls = [];
}

-- What a text field holds, or nothing.
abbrev pub text_at : Bytes → Fields → Bytes
text_at key fs = or_empty (as_str (get key fs))

abbrev pub is_set : Option Json → Bool
is_set none = false
is_set (some null) = false
is_set (some (bool _)) = true
is_set (some (num _)) = true
is_set (some (str _)) = true
is_set (some (arr _)) = true
is_set (some (obj _)) = true

abbrev pub arguments_in : Fields → Option Json
arguments_in fs =
    if has (codes "arguments") fs
    then get (codes "arguments") fs
    else get (codes "function.arguments") fs

abbrev pub is_arr : Option Json → Bool
is_arr o = elim (as_arr o) [ none ↦ false | some _ ↦ true ]

abbrev pub is_obj : Option Json → Bool
is_obj o = elim (as_obj o) [ none ↦ false | some _ ↦ true ]

abbrev pub is_str : Option Json → Bool
is_str o = elim (as_str o) [ none ↦ false | some _ ↦ true ]

abbrev pub part_texts : Items → List Bytes
part_texts nil = []
part_texts (cons (str s) rest) = s ∷ part_texts rest
part_texts (cons (obj fs) rest) =
    let others = part_texts rest in
    elim (as_str (get (codes "text") fs)) [ none ↦ others | some t ↦ t ∷ others ]
part_texts (cons _ rest) = part_texts rest

unfoldable pub normalize_message_content : Option Json → Bytes
normalize_message_content (some (str s)) = s
normalize_message_content (some (arr parts)) = join_lines (part_texts parts)
normalize_message_content _ = []

abbrev pub points : Bool → ℕ → ℕ
points test n = if test then n else 0

unfoldable pub is_request_like_simulated_payload : Fields → Bool
is_request_like_simulated_payload fs =
    (is_arr (get (codes "messages") fs) || has (codes "input") fs)
    && (is_arr (get (codes "tools") fs)
        || is_str (get (codes "tool_choice") fs)
        || is_obj (get (codes "tool_choice") fs)
        || has (codes "parallel_tool_calls") fs
        || not (is_arr (get (codes "choices") fs)))

unfoldable pub looks_like_chat_choice_object : Fields → Bool
looks_like_chat_choice_object fs =
    is_obj (get (codes "message") fs)
    || is_obj (get (codes "delta") fs)
    || has (codes "finish_reason") fs

abbrev pub content_points : Option Json → ℕ
content_points (some (str s)) = points (not (trim_space s == [])) 35
content_points (some (arr parts)) = points (not (is_nil parts)) 20
content_points _ = 0

abbrev pub message_points : Option Fields → ℕ
message_points none = 0
message_points (some message) =
    80
    + points (to_lower (text_at (codes "role") message) == codes "assistant") 20
    + points (not (is_nil (or_nil (as_arr (get (codes "tool_calls") message))))) 90
    + content_points (get (codes "content") message)

abbrev pub first_points : Option Fields → ℕ
first_points none = 0
first_points (some first) =
    message_points (as_obj (get (codes "message") first))
    + points (not (text_at (codes "finish_reason") first == [])) 15

abbrev pub choices_points : Items → ℕ
choices_points nil = 0
choices_points (cons first rest) = 220 + first_points (as_obj (some first))

unfoldable pub score_simulated_candidate : Fields → ℕ
score_simulated_candidate fs =
    points (not (is_request_like_simulated_payload fs)) 180
    + choices_points (or_nil (as_arr (get (codes "choices") fs)))
    + points (looks_like_chat_choice_object fs) 75
    + points (to_lower (text_at (codes "object") fs) == codes "chat.completion") 70
    + points (has_prefix (to_lower (text_at (codes "id") fs)) (codes "chatcmpl")) 50

abbrev pub block_points : Items → ℕ
block_points nil = 0
block_points (cons block rest) =
    let fs = or_end (as_obj (some block)) in
    (if text_at (codes "type") fs == codes "tool_use"
      then 90
      else if text_at (codes "type") fs == codes "text"
      then points (not (trim_space (text_at (codes "text") fs) == [])) 35
      else 0)
    + block_points rest

unfoldable pub score_anthropic_candidate : Fields → ℕ
score_anthropic_candidate fs =
    let content = or_nil (as_arr (get (codes "content") fs)) in
    points (not (is_request_like_simulated_payload fs)) 180
    + points (not (is_nil content)) 220
    + block_points content
    + points (to_lower (text_at (codes "role") fs) == codes "assistant") 30
    + points (to_lower (text_at (codes "type") fs) == codes "message") 70
    + points (not (text_at (codes "stop_reason") fs == [])) 25
    + points (has_prefix (to_lower (text_at (codes "id") fs)) (codes "msg_")) 50
    + points (not (is_arr (get (codes "choices") fs))) 100

-- The best candidate with its score; none stands for a score of -1 << 30.
abbrev pub Best : Type 0
Best = Option (ℕ × Fields)

abbrev pub better : ℕ → Fields → Best → Best
better score fs none = some (score, fs)
better score fs (some (top, best)) = if ltb top score then some (score, fs) else some (top, best)

abbrev pub consider : (Fields → ℕ) → Decoded → Best → Best
consider score failed best = best
consider score nil_map best = better (score end) end best
consider score (map_of fs) best = better (score fs) fs best

unfoldable pub choose : (Bytes → Option Json) → (Fields → ℕ) → List Bytes → Best → Best
choose decode score [] best = best
choose decode score (raw ∷ raws) best =
    choose decode score raws (consider score (as_map (decode raw)) best)

-- Whether the best score is more than 0.
abbrev pub usable : ℕ → Best → Option Fields
usable lowered none = none
usable lowered (some (top, fs)) = if ltb lowered top then some fs else none
