-- ===== src/ToolCalling/Json.antt =====
-- What `json.Unmarshal` into `any` gives, as pkg/toolcalling reads it. A number is the text that
-- `json.Marshal` gives of the float64, and whether it is whole. An object is its keys with their
-- values; the order stands for that of a `range` loop, which Go leaves open.
use m365plus.Base.{Bool, true, false, [], Option, none, some, ◌==◌, bytes_eq, if◌then◌else◌, Bytes}

pub record Number : Type 0 where
  pub digits : Bytes
  pub is_whole : Bool

mutual
  pub data Json : Type 0 where
    null : Json
    bool : Bool → Json
    num : Number → Json
    str : Bytes → Json
    arr : Items → Json
    obj : Fields → Json

  pub data Items : Type 0 where
    nil : Items
    cons : Json → Items → Items

  pub data Fields : Type 0 where
    end : Fields
    field : Bytes → Json → Fields → Fields

-- `object[key]`.
unfoldable pub get : Bytes → Fields → Option Json
get key end = none
get key (field k v fs) = if k == key then some v else get key fs

abbrev pub has : Bytes → Fields → Bool
has key fs = elim (get key fs) [ none ↦ false | some _ ↦ true ]

-- The type assertions `.(string)`, `.([]any)` and `.(map[string]any)`.
abbrev pub as_str : Option Json → Option Bytes
as_str (some (str s)) = some s
as_str _ = none

abbrev pub as_arr : Option Json → Option Items
as_arr (some (arr xs)) = some xs
as_arr _ = none

abbrev pub as_obj : Option Json → Option Fields
as_obj (some (obj fs)) = some fs
as_obj _ = none

-- The zero value where an assertion fails.
abbrev pub or_empty : Option Bytes → Bytes
or_empty none = []
or_empty (some s) = s

abbrev pub or_end : Option Fields → Fields
or_end none = end
or_end (some fs) = fs

abbrev pub or_nil : Option Items → Items
or_nil none = nil
or_nil (some xs) = xs

abbrev pub is_nil : Items → Bool
is_nil nil = true
is_nil (cons _ _) = false

abbrev pub is_end : Fields → Bool
is_end end = true
is_end (field _ _ _) = false
