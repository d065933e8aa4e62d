-- ===== src/Tests/Calls.antt =====
-- Runs of the theorems on the tool calls in an answer, on its envelope and on its citations.
use m365plus.Base.{
  ℕ, ◌≡◌, refl, inl, false, List, [], ◌∷◌, ◌++◌, Option, none, some, ◌==◌, bytes_eq, bytes_beq,
  ==_apart, if◌then◌else◌, Bytes,
}
use m365plus.Base.Text.{codes, trim_space, strip, space_ahead, space_behind}
use m365plus.ToolCalling.Json.{Json, bool, str, arr, obj, cons, nil, Fields, field, end}
use m365plus.ToolCalling.Schema.{validate_and_prune}
use m365plus.ToolCalling.Schema.Sound.{conforms, prune, Verdict, validate_and_prune-Verdict}
use m365plus.ToolCalling.Contracts.{ToolDef, ToolContracts, contracts_for, with_choice}
use m365plus.ToolCalling.Candidates.{
  extract_balanced_json_segment, scan_balanced, next_balance, closing_of,
}
use m365plus.ToolCalling.Candidates.Balanced.{count, outside, extract_balanced_json_segment-count}
use m365plus.ToolCalling.StreamExtract.Extractor.{ContentStreamExtractor}
use m365plus.Client.Citations.{Runes, citation_start, citation_end, contains_rune, strip_citations}
use m365plus.Client.Citations.Stream.{push_all, join, push_all-strip_citations}

abbrev path_schema : Fields
path_schema = field (codes "type") (str (codes "object")) (
    field (codes "properties") (obj (field (codes "path") (obj end) end)) (
      field (codes "required") (arr (cons (str (codes "path")) nil))
        (field (codes "additionalProperties") (bool false) end)))

abbrev path_arguments : Fields
path_arguments = field (codes "path") (str (codes "a")) (field (codes "mode") (str (codes "r")) end)

abbrev read_call : Fields
read_call =
    field (codes "name") (str (codes "read")) (field (codes "arguments") (str (codes "{args}")) end)

abbrev call_response : Fields
call_response =
    field (codes "choices")
      (arr (
        cons
          (obj (
            field (codes "message")
              (obj (field (codes "tool_calls") (arr (cons (obj read_call) nil)) end)) end))
          nil))
      end

abbrev use_response : Fields
use_response =
    field (codes "content")
      (arr (
        cons
          (obj (
            field (codes "type") (str (codes "tool_use")) (
              field (codes "name") (str (codes "read"))
                (field (codes "input") (obj path_arguments) end))))
          nil))
      end

-- A stand-in for JSON that knows these texts.
abbrev encode_example : Json → Bytes
encode_example (obj _) = codes "{args}"
encode_example _ = codes "null"

abbrev decode_example : Bytes → Option Json
decode_example t =
    if t == codes "{call}"
    then some (obj call_response)
    else if t == codes "{use}"
    then some (obj use_response)
    else if t == codes "{args}"
    then some (obj path_arguments)
    else none

abbrev mint_example : ℕ → Bytes
mint_example n = n ∷ []

abbrev read_tool : ToolDef
read_tool = record {
  function = record { name = codes "read"; parameters = path_schema };
  name = [];
  input_schema = end;
  parameters = end;
}

abbrev read_contracts : ToolContracts
read_contracts = contracts_for (read_tool ∷ [])

validate_and_prune-Verdict_example :
    Verdict encode_example
      (conforms encode_example (obj path_arguments) path_schema)
      (prune (obj path_arguments) path_schema)
      (validate_and_prune encode_example path_arguments path_schema)
validate_and_prune-Verdict_example =
    validate_and_prune-Verdict encode_example path_arguments path_schema

abbrev no_choice : ToolContracts
no_choice = with_choice (codes "none") read_contracts

extract_balanced_json_segment-count_example :
    (seg : Bytes) × (rest : Bytes) × (b'{' ∷ codes "[1]}]" ≡ seg ++ rest)
    × (extract_balanced_json_segment b'{' (b'{' ∷ codes "[1]}]") ≡ trim_space seg)
    × (count outside (closing_of b'{') seg ≡ count outside b'{' seg)
unfolding extract_balanced_json_segment scan_balanced next_balance trim_space strip space_ahead
    space_behind bytes_beq
extract_balanced_json_segment-count_example =
    extract_balanced_json_segment-count b'{' (codes "[1]}]") (inl refl)
      (==_apart (extract_balanced_json_segment b'{' (b'{' ∷ codes "[1]}]")) [] refl)

abbrev cited : List Runes
cited = (65 ∷ citation_start ∷ 66 ∷ []) ∷ (67 ∷ citation_end ∷ 68 ∷ []) ∷ []

push_all-strip_citations_example :
    ((push_all [] cited).0 ≡ strip_citations (join cited))
    × (contains_rune citation_start (push_all [] cited).0 ≡ false)
push_all-strip_citations_example = push_all-strip_citations cited

abbrev new_extractor : ContentStreamExtractor
new_extractor = record {
  buffer = [];
  text = [];
  done = false;
  candidate_locked = false;
  candidate_start = 0;
  candidate_end = 0;
  candidate_complete = false;
}

abbrev unquoted : Bytes → Option Bytes
unquoted t = some t

abbrev content_chunks : List Bytes
content_chunks = codes "{ 'choices' : [" ∷ codes "{call}" ∷ []
