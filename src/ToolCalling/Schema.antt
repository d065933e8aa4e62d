-- ===== src/ToolCalling/Schema.antt =====
-- pkg/toolcalling/schema.go: the check of a call's arguments against a JSON schema, and the
-- pruning of undeclared keys. `encode` is `json.Marshal`. Where the code mutates the object that
-- it checks, the check here answers the pruned one. Errors are data in place of their texts.
pub mod Sound
use m365plus.Base.{
  ℕ, zero, suc, ◌+◌, Bool, true, false, not, ◌&&◌, ◌||◌, List, [], ◌∷◌, ◌++◌, Option, none, some,
  ◌==◌, bytes_eq, if◌then◌else◌, Bytes,
}
use m365plus.Base.Text.{codes}
use m365plus.ToolCalling.Json.{
  Number, Json, null, bool, num, str, arr, obj, Items, nil, cons, Fields, end, field, get, has,
  as_str, as_arr, as_obj, or_empty, or_end, or_nil, is_nil, is_end,
}

-- Where in the arguments: the keys and places, the outermost first.
pub data Segment : Type 0 where
  key : Bytes → Segment
  place : ℕ → Segment

abbrev pub Where : Type 0
Where = List Segment

pub data Violation : Type 0 where
  wrong_type : Where → Bytes → Violation
  missing : Where → Bytes → Violation
  not_allowed : Where → Violation

pub data Checked {ℓ} (A : Type ℓ) : Type ℓ where
  ok : A → Checked A
  bad : Violation → Checked A

abbrev pub map_ok {ℓ κ} : {A : Type ℓ} {B : Type κ} → (A → B) → Checked A → Checked B
map_ok f (ok a) = ok (f a)
map_ok f (bad e) = bad e

-- The first of two failures, or both results.
abbrev pub both_ok {ℓ κ μ} :
    {A : Type ℓ} {B : Type κ} {C : Type μ} → (A → B → C) → Checked A → Checked B → Checked C
both_ok f (ok a) r = map_ok (f a) r
both_ok f (bad e) r = bad e

-- `requiredFromSchema`.
unfoldable pub required_names : Items → List Bytes
required_names nil = []
required_names (cons (str s) xs) =
    let rest = required_names xs in if s == [] then rest else s ∷ rest
required_names (cons _ xs) = required_names xs

abbrev pub required_from_schema : Fields → List Bytes
required_from_schema schema = required_names (or_nil (as_arr (get (codes "required") schema)))

unfoldable pub first_missing : List Bytes → Fields → Option Bytes
first_missing [] fs = none
first_missing (n ∷ ns) fs = if has n fs then first_missing ns fs else some n

abbrev pub schema_type : Fields → Bytes
schema_type schema = or_empty (as_str (get (codes "type") schema))

abbrev pub properties_of : Fields → Fields
properties_of schema = or_end (as_obj (get (codes "properties") schema))

abbrev pub item_schema_of : Fields → Fields
item_schema_of schema = or_end (as_obj (get (codes "items") schema))

abbrev pub is_false : Option Json → Bool
is_false (some (bool false)) = true
is_false _ = false

-- Whether undeclared keys are pruned.
abbrev pub is_closed : Fields → Bool
is_closed schema =
    is_false (get (codes "additionalProperties") schema) && not (is_end (properties_of schema))

-- Whether a value that is no object and no array has the type.
abbrev pub has_type : Bytes → Json → Bool
has_type t (bool _) = t == codes "boolean"
has_type t (num n) = t == codes "number" || (t == codes "integer" && n.is_whole)
has_type t (str _) = t == codes "string"
has_type t null = t == codes "null"
has_type t (arr _) = t == codes "array"
has_type t (obj _) = t == codes "object"

-- A type that the `switch` does not name constrains nothing.
abbrev pub is_known_type : Bytes → Bool
is_known_type t =
    t == codes "object"
    || t == codes "array"
    || t == codes "string"
    || t == codes "boolean"
    || t == codes "number"
    || t == codes "integer"
    || t == codes "null"

abbrev pub type_fits : Bytes → Json → Bool
type_fits t v = not (is_known_type t) || has_type t v

-- The check for required keys, before the fields.
abbrev pub or_missing : Option Bytes → Where → Checked Json → Checked Json
or_missing none at inner = inner
or_missing (some n) at inner = bad (missing at n)

module _ (encode : Json → Bytes) where
  unfoldable pub enum_has : Bytes → Items → Bool
  enum_has text nil = false
  enum_has text (cons v vs) = encode v == text || enum_has text vs

  -- `validateEnum`.
  abbrev pub enum_allows : Fields → Json → Bool
  enum_allows schema v =
      let allowed = or_nil (as_arr (get (codes "enum") schema)) in
      is_nil allowed || enum_has (encode v) allowed

  -- The part of `validateNode` before it looks into an object or an array.
  abbrev pub guarded : Fields → Json → Where → Checked Json → Checked Json
  guarded schema v at inner =
      if is_end schema
      then ok v
      else if not (enum_allows schema v)
      then bad (not_allowed at)
      else if not (type_fits (schema_type schema) v)
      then bad (wrong_type at (schema_type schema))
      else if is_known_type (schema_type schema)
      then inner
      else ok v

  unfoldable mutual
    pub validate_node : Json → Fields → Where → Checked Json
    validate_node (obj fs) schema at = guarded schema (obj fs) at (
        or_missing (first_missing (required_from_schema schema) fs) at
          (map_ok obj (validate_fields fs (properties_of schema) (is_closed schema) at)))
    validate_node (arr xs) schema at =
        guarded schema (arr xs) at (map_ok arr (validate_items xs (item_schema_of schema) at 0))
    validate_node null schema at = guarded schema null at (ok null)
    validate_node (bool b) schema at = guarded schema (bool b) at (ok (bool b))
    validate_node (num n) schema at = guarded schema (num n) at (ok (num n))
    validate_node (str s) schema at = guarded schema (str s) at (ok (str s))

    -- The pruning of `validateObject`, and its loop over the fields left.
    pub validate_fields : Fields → Fields → Bool → Where → Checked Fields
    validate_fields end properties closed at = ok end
    validate_fields (field k v fs) properties closed at =
        let rest = validate_fields fs properties closed at in
        let child = validate_node v (or_end (as_obj (get k properties))) (at ++ key k ∷ []) in
        if closed && not (has k properties) then rest else both_ok (field k) child rest

    pub validate_items : Items → Fields → Where → ℕ → Checked Items
    validate_items nil schema at i = ok nil
    validate_items (cons v vs) schema at i =
        both_ok cons (validate_node v schema (at ++ place i ∷ []))
          (validate_items vs schema at (i + 1))

  unfoldable pub validate_and_prune : Fields → Fields → Checked Json
  validate_and_prune args schema = validate_node (obj args) schema []
