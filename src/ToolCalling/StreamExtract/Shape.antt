-- ===== src/ToolCalling/StreamExtract/Shape.antt =====
-- pkg/toolcalling/streamextract.go: what the scan for the content knows of the shape of the object. A
-- depth or a place of -1 is none.
use m365plus.Base.{
  ℕ, ◌+◌, ◌-◌, Bool, true, false, not, ◌&&◌, [], ◌∷◌, Option, none, some, ◌==◌, nat_eq, bytes_eq,
  if◌then◌else◌, Bytes,
}
use m365plus.Base.Text.{codes}
use m365plus.ToolCalling.StreamExtract.Text.{skip_stream_whitespace}

-- The variables of the loop of `scanStreamContentCandidate`.
pub record Shape : Type 0 where
  pub curly : ℕ
  pub square : ℕ
  pub choices_array : Option ℕ
  pub choice_object : Option ℕ
  pub message_object : Option ℕ
  pub expected_choices : Option ℕ
  pub expected_message : Option ℕ
  pub shape_found : Bool

abbrev pub no_shape : Shape
no_shape = record {
  curly = 0;
  square = 0;
  choices_array = none;
  choice_object = none;
  message_object = none;
  expected_choices = none;
  expected_message = none;
  shape_found = false;
}

abbrev pub is_at : Option ℕ → ℕ → Bool
is_at none n = false
is_at (some m) n = m == n

abbrev pub is_known : Option ℕ → Bool
is_known none = false
is_known (some _) = true

-- What a key does: nothing but to change the variables, or it is that of the content, whose value
-- stands at the rest.
pub data Effect : Type 0 where
  go_on : Shape → Effect
  content_at : Bytes → Effect

abbrev pub key_effect : Shape → Bytes → ℕ → Bytes → Effect
key_effect sh token value rest =
    if sh.curly == 1 && (sh.square == 0 && token == codes "choices")
    then go_on (record sh { expected_choices = some value })
    else if is_at sh.choice_object sh.curly
        && (is_at sh.choices_array sh.square && token == codes "message")
    then go_on (record sh { expected_message = some value })
    else if is_at sh.message_object sh.curly
        && (is_at sh.choices_array sh.square && token == codes "content")
    then content_at rest
    else go_on sh

abbrev pub colon_effect : Shape → Bytes → ℕ × Bytes → Effect
colon_effect sh token (colon, []) = go_on sh
colon_effect sh token (colon, ch ∷ s) =
    let (value, rest) = skip_stream_whitespace (colon + 1) s in
    if ch == b':' then key_effect sh token value rest else go_on sh

-- How the loop ends: it fails, the text ends, the object closes, or its content is found.
pub data Ending : Type 0 where
  invalid : Ending
  text_ends : Shape → Ending
  closes : ℕ → Shape → Ending
  content : Bytes → Shape → Ending

abbrev pub opens_object : ℕ → Shape → Shape
opens_object index sh =
    let curly = sh.curly + 1 in
    if is_at sh.expected_message index
    then record sh { curly = curly; message_object = some curly; shape_found = true }
    else if is_known sh.choices_array
        && (not (is_known sh.choice_object) && (is_at sh.choices_array sh.square && curly == 2))
    then record sh { curly = curly; choice_object = some curly }
    else record sh { curly = curly }

abbrev pub opens_array : ℕ → Shape → Shape
opens_array index sh =
    if is_at sh.expected_choices index
    then record sh { square = sh.square + 1; choices_array = some (sh.square + 1) }
    else record sh { square = sh.square + 1 }

-- A byte outside strings: the variables after it, or how the loop ends.
pub data Moved : Type 0 where
  moved : Shape → Moved
  over : Ending → Moved

abbrev pub move : ℕ → Shape → ℕ → Moved
move index sh ch =
    if ch == b'{'
    then moved (opens_object index sh)
    else if ch == b'}'
    then (if sh.curly == 1
        then over (closes (index + 1) sh)
        else if sh.curly == 0
        then over invalid
        else moved (record sh { curly = sh.curly - 1 }))
    else if ch == b'['
    then moved (opens_array index sh)
    else if ch == b']'
    then (if sh.square == 0 then over invalid else moved (record sh { square = sh.square - 1 }))
    else moved sh
