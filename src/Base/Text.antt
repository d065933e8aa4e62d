-- ===== src/Base/Text.antt =====
-- What the code uses of Go's package strings, on the UTF-8 bytes of a text.
use m365plus.Base.Tests.{Bytes, leb, ◌==◌, nat_eq, if◌then◌else◌}
use m365plus.Base.Lists.{length, drop}
use Prim.Native.Nat.{ℕ, zero, suc, ◌+◌}
use Prim.Native.Char.{code}
use Prim.Native.String.{String}
use mathlib.Core.Bool.{Bool, true, false, ◌&&◌, ◌||◌}
use mathlib.Core.List.{[], ◌∷◌, reverse}

-- The code points of a literal: its bytes, if it is ASCII.
abbrev pub codes : String → Bytes
codes String.[] = []
codes (String.◌∷◌ c s) = code c ∷ codes s

abbrev pub is_ascii_space : ℕ → Bool
is_ascii_space c = c == 32 || (leb 9 c && leb c 13)

-- The bytes of the space at the front of a text, 0 if there is none: ASCII spaces, U+0085, U+00A0,
-- U+1680, U+2000 to U+200A, U+2028, U+2029, U+202F, U+205F and U+3000.
abbrev pub wide_space : ℕ → ℕ → ℕ → Bool
wide_space a b c =
    (a == 0xe1 && (b == 0x9a && c == 0x80))
    || (a == 0xe2
        && (b == 0x80 && ((leb 0x80 c && leb c 0x8a) || c == 0xa8 || c == 0xa9 || c == 0xaf)))
    || (a == 0xe2 && (b == 0x81 && c == 0x9f))
    || (a == 0xe3 && (b == 0x80 && c == 0x80))

abbrev pub latin_space : ℕ → ℕ → Bool
latin_space a b = a == 0xc2 && (b == 0x85 || b == 0xa0)

unfoldable pub space_ahead : Bytes → ℕ
space_ahead [] = 0
space_ahead (a ∷ []) = if is_ascii_space a then 1 else 0
space_ahead (a ∷ b ∷ []) = if is_ascii_space a then 1 else if latin_space a b then 2 else 0
space_ahead (a ∷ b ∷ c ∷ r) =
    if is_ascii_space a then 1 else if latin_space a b then 2 else if wide_space a b c then 3 else 0

-- The same at the end of a text, which is given backwards.
unfoldable pub space_behind : Bytes → ℕ
space_behind [] = 0
space_behind (a ∷ []) = if is_ascii_space a then 1 else 0
space_behind (b ∷ a ∷ []) = if is_ascii_space b then 1 else if latin_space a b then 2 else 0
space_behind (c ∷ b ∷ a ∷ r) =
    if is_ascii_space c then 1 else if latin_space b c then 2 else if wide_space a b c then 3 else 0

-- Takes spaces off the front, one for each round; a text has no more of them than bytes.
unfoldable pub strip : (Bytes → ℕ) → ℕ → Bytes → Bytes
strip space zero s = s
strip space (suc fuel) s =
    let rest = strip space fuel (drop (space s) s) in if space s == 0 then s else rest

-- `strings.TrimSpace`.
unfoldable pub trim_space : Bytes → Bytes
unfolding strip space_ahead space_behind
trim_space s =
    let left = strip space_ahead (length s) s in
    reverse (strip space_behind (length left) (reverse left))

-- `strings.HasPrefix`, `strings.Contains`.
unfoldable pub has_prefix : Bytes → Bytes → Bool
has_prefix s [] = true
has_prefix [] (p ∷ ps) = false
has_prefix (c ∷ s) (p ∷ ps) = c == p && has_prefix s ps

unfoldable pub contains : Bytes → Bytes → Bool
contains [] p = has_prefix [] p
contains (c ∷ s) p = has_prefix (c ∷ s) p || contains s p

-- `strings.ToLower`, as far as a search for ASCII text can tell: U+0130 and U+212A are the only
-- other characters whose lower case is ASCII.
abbrev pub lower_byte : ℕ → ℕ
lower_byte c = if leb b'A' c && leb c b'Z' then c + 32 else c

unfoldable pub to_lower : Bytes → Bytes
to_lower [] = []
to_lower (a ∷ []) = lower_byte a ∷ []
to_lower (a ∷ b ∷ []) =
    if a == 0xc4 && b == 0xb0 then b'i' ∷ [] else lower_byte a ∷ to_lower (b ∷ [])
to_lower (a ∷ b ∷ c ∷ r) =
    let plain = lower_byte a ∷ to_lower (b ∷ c ∷ r) in
    let dotted = b'i' ∷ to_lower (c ∷ r) in
    let kelvin = b'k' ∷ to_lower r in
    if a == 0xc4 && b == 0xb0
    then dotted
    else if a == 0xe2 && (b == 0x84 && c == 0xaa)
    then kelvin
    else plain

-- `strings.TrimRight(s, "\n")`.
unfoldable pub drop_newlines : Bytes → Bytes
drop_newlines [] = []
drop_newlines (c ∷ s) = if c == b'\n' then drop_newlines s else c ∷ s

unfoldable pub trim_right_newlines : Bytes → Bytes
unfolding drop_newlines
trim_right_newlines s = reverse (drop_newlines (reverse s))
