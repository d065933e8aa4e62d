-- ===== src/ToolCalling/Contracts.antt =====
-- pkg/toolcalling/schema.go and toolcalling.go: what the declared tools and `tool_choice` ask of a
-- call. `encode` is `json.Marshal`, which does not fail on a decoded value, and `decode` is
-- `json.Unmarshal` into `any`, none where the text is not JSON. Reasons are data in place of texts.
pub mod Accepted
use m365plus.Base.{
  Bool, true, false, not, ◌&&◌, ◌||◌, List, [], ◌∷◌, Option, none, some, ◌==◌, bytes_eq,
  if◌then◌else◌, Bytes,
}
use m365plus.Base.Map.{Map, lookup, insert}
use m365plus.Base.Text.{codes, trim_space}
use m365plus.ToolCalling.Json.{Json, null, bool, num, str, arr, obj, Fields, end, get, is_end}
use m365plus.ToolCalling.Schema.{
  Where, Violation, wrong_type, not_allowed, Checked, ok, bad, required_from_schema, first_missing,
  schema_type, is_known_type, type_fits, enum_allows, or_missing, validate_and_prune,
}

pub record ToolDefFunc : Type 0 where
  pub name : Bytes
  pub parameters : Fields

-- A schema that is nil is empty. The description and the nested tools are left out.
pub record ToolDef : Type 0 where
  pub function : ToolDefFunc
  pub name : Bytes
  pub input_schema : Fields
  pub parameters : Fields

abbrev pub tool_name : ToolDef → Bytes
tool_name t = if not (t.function.name == []) then t.function.name else t.name

abbrev pub no_names : List Bytes → Bool
no_names [] = true
no_names (_ ∷ _) = false

abbrev pub first_schema : List Fields → Fields
first_schema [] = end
first_schema (s ∷ ss) = let rest = first_schema ss in if is_end s then rest else s

abbrev pub first_required : List Fields → List Bytes
first_required [] = []
first_required (s ∷ ss) =
    let rest = first_required ss in
    if no_names (required_from_schema s) then rest else required_from_schema s

abbrev pub schemas_of : ToolDef → List Fields
schemas_of t = t.input_schema ∷ t.parameters ∷ t.function.parameters ∷ []

-- A map to nil holds the empty schema. Where two tools have one name, a later one without a schema
-- does not write over an earlier one.
unfoldable pub schema_by_tool : List ToolDef → Map Bytes Fields → Map Bytes Fields
schema_by_tool [] out = out
schema_by_tool (t ∷ ts) out =
    let schema = first_schema (schemas_of t) in
    let known : Map Bytes Fields = elim (lookup (tool_name t) out) [
      | none ↦ insert (tool_name t) end out
      | some _ ↦ out
    ] in
    schema_by_tool ts (
      if tool_name t == []
      then out
      else if is_end schema
      then known
      else insert (tool_name t) schema out)

unfoldable pub required_args_by_tool :
    List ToolDef → Map Bytes (List Bytes) → Map Bytes (List Bytes)
required_args_by_tool [] out = out
required_args_by_tool (t ∷ ts) out =
    required_args_by_tool ts
      (if tool_name t == [] then out else insert (tool_name t) (first_required (schemas_of t)) out)

pub record ToolContracts : Type 0 where
  pub required : Map Bytes (List Bytes)
  pub schemas : Map Bytes Fields
  pub choice : Bytes

abbrev pub contracts_for : List ToolDef → ToolContracts
contracts_for tools = record {
  required = required_args_by_tool tools [];
  schemas = schema_by_tool tools [];
  choice = [];
}

abbrev pub with_choice : Bytes → ToolContracts → ToolContracts
with_choice choice c = record c { choice = choice }

unfoldable pub choice_allows : ToolContracts → Bytes → Bool
choice_allows c name =
    if c.choice == []
      || c.choice == codes "auto"
      || c.choice == codes "required"
      || c.choice == codes "any"
    then true
    else if c.choice == codes "none"
    then false
    else c.choice == name

abbrev pub required_of : ToolContracts → Bytes → List Bytes
required_of c name = elim (lookup name c.required) [ none ↦ [] | some names ↦ names ]

abbrev pub schema_of : ToolContracts → Bytes → Fields
schema_of c name = elim (lookup name c.schemas) [ none ↦ end | some schema ↦ schema ]

pub data Reason : Type 0 where
  choice_is_none : Reason
  choice_pins : Bytes → Bytes → Reason
  required_missing : Reason
  not_an_object : Reason
  violates : Violation → Reason

pub record Validated : Type 0 where
  pub arguments : Bytes
  pub reason : Option Reason
  pub repairable : Bool

-- Whether a required argument has a value.
abbrev pub is_filled : Option Json → Bool
is_filled none = false
is_filled (some null) = false
is_filled (some (str s)) = not (trim_space s == [])
is_filled (some (bool _)) = true
is_filled (some (num _)) = true
is_filled (some (arr _)) = true
is_filled (some (obj _)) = true

unfoldable pub all_filled : List Bytes → Fields → Bool
all_filled [] fs = true
all_filled (n ∷ ns) fs = is_filled (get n fs) && all_filled ns fs

-- What `json.Unmarshal` into a map gives of a value: a nil map of null, an error of what is no
-- object.
pub data Decoded : Type 0 where
  nil_map : Decoded
  map_of : Fields → Decoded
  failed : Decoded

abbrev pub as_map : Option Json → Decoded
as_map (some (obj fs)) = map_of fs
as_map (some null) = nil_map
as_map _ = failed

abbrev pub decoded_filled : List Bytes → Decoded → Bool
decoded_filled names nil_map = all_filled names end
decoded_filled names (map_of fs) = all_filled names fs
decoded_filled names failed = false

module _ (encode : Json → Bytes) (decode : Bytes → Option Json) where
  unfoldable pub tool_call_satisfies_required : Bytes → List Bytes → Bool
  tool_call_satisfies_required arguments required =
      if no_names required then true else decoded_filled required (as_map (decode arguments))

  -- `ValidateAndPrune` on a nil map, which is an object that is encoded as null.
  unfoldable pub validate_nil : Fields → Checked Json
  validate_nil schema =
      if is_end schema
      then ok null
      else if not (enum_allows encode schema null)
      then bad (not_allowed [])
      else if not (type_fits (schema_type schema) (obj end))
      then bad (wrong_type [] (schema_type schema))
      else if is_known_type (schema_type schema)
      then or_missing (first_missing (required_from_schema schema) end) [] (ok null)
      else ok null

  abbrev pub checked_map : Fields → Decoded → Option (Checked Json)
  checked_map schema nil_map = some (validate_nil schema)
  checked_map schema (map_of fs) = some (validate_and_prune encode fs schema)
  checked_map schema failed = none

  abbrev pub rejected : Bytes → Reason → Validated
  rejected arguments reason = record {
    arguments = arguments;
    reason = some reason;
    repairable = true;
  }

  abbrev pub accepted : Bytes → Validated
  accepted arguments = record { arguments = arguments; reason = none; repairable = false }

  abbrev pub outcome : Bytes → Option (Checked Json) → Validated
  outcome arguments none = rejected arguments not_an_object
  outcome arguments (some (bad violation)) = rejected arguments (violates violation)
  outcome arguments (some (ok pruned)) = accepted (encode pruned)

  unfoldable pub validate : ToolContracts → Bytes → Bytes → Validated
  validate c name arguments =
      if not (choice_allows c name)
      then (if c.choice == codes "none"
          then record { arguments = arguments; reason = some choice_is_none; repairable = false }
          else rejected arguments (choice_pins c.choice name))
      else if not (tool_call_satisfies_required arguments (required_of c name))
      then rejected arguments required_missing
      else if is_end (schema_of c name)
      then accepted arguments
      else outcome arguments (checked_map (schema_of c name) (as_map (decode arguments)))
