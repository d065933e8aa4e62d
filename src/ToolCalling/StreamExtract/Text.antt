-- ===== src/ToolCalling/StreamExtract/Text.antt =====
-- pkg/toolcalling/streamextract.go: the walks over JSON text. A place in the buffer is a number with
-- what is left of the buffer from there.
use m365plus.Base.{
  ℕ, ◌+◌, ◌-◌, ◌%◌, Bool, true, false, not, ◌&&◌, ◌||◌, [], ◌∷◌, reverse, leb, ◌==◌, nat_eq,
  bytes_eq, if◌then◌else◌, length, take, drop, Bytes,
}
use m365plus.ToolCalling.Candidates.{Balance, plain, quoted, escaped, closed, next_balance}

abbrev pub end_at : Balance → ℕ → ℕ × Bool → ℕ × Bool
end_at closed index rest = (index + 1, true)
end_at (plain _) index rest = rest
end_at (quoted _) index rest = rest
end_at (escaped _) index rest = rest

-- `streamJSONEnd`: the same walk as over the braces of a segment.
unfoldable pub stream_json_end : Balance → ℕ → Bytes → ℕ × Bool
stream_json_end b index [] = (index, false)
stream_json_end b index (ch ∷ s) =
    let after = next_balance b'{' b'}' b ch in
    end_at after index (stream_json_end after (index + 1) s)

unfoldable pub skip_stream_whitespace : ℕ → Bytes → ℕ × Bytes
skip_stream_whitespace index [] = (index, [])
skip_stream_whitespace index (ch ∷ s) =
    let rest = skip_stream_whitespace (index + 1) s in
    if ch == b' ' || ch == b'\t' || ch == b'\r' || ch == b'\n' then rest else (index, ch ∷ s)

abbrev pub cons_first : ℕ → Bytes × Bool → Bytes × Bool
cons_first ch (s, complete) = (ch ∷ s, complete)

-- The flag says that a backslash stands before.
unfoldable pub scan_stream_json_string : Bool → Bytes → Bytes × Bool
scan_stream_json_string after_backslash [] = ([], false)
scan_stream_json_string after_backslash (ch ∷ s) =
    let rest = scan_stream_json_string (not after_backslash && ch == b'\\') s in
    if not after_backslash && ch == b'"' then ([], true) else cons_first ch rest

unfoldable pub leading_backslashes : Bytes → ℕ
leading_backslashes [] = 0
leading_backslashes (ch ∷ s) =
    let rest = leading_backslashes s in if ch == b'\\' then rest + 1 else 0

abbrev pub is_hex : ℕ → Bool
is_hex c = (leb b'0' c && leb c b'9') || (leb b'a' c && leb c b'f') || (leb b'A' c && leb c b'F')

-- Whether an escape that ends a text is of a code unit from 0xD800 to 0xDBFF.
abbrev pub is_high_surrogate : Bytes → Bool
is_high_surrogate (slash ∷ u ∷ a ∷ b ∷ c ∷ d ∷ []) =
    slash == b'\\'
    && ((u == b'u' || u == b'U')
        && ((a == b'd' || a == b'D')
            && ((b == b'8' || b == b'9' || b == b'a' || b == b'b' || b == b'A' || b == b'B')
                && (is_hex c && is_hex d))))
is_high_surrogate _ = false

unfoldable pub ends_with_stream_high_surrogate : Bytes → Bool
ends_with_stream_high_surrogate raw =
    let before = take (length raw - 5) raw in
    leb 6 (length raw)
    && (is_high_surrogate (drop (length raw - 6) raw)
        && not (leading_backslashes (reverse before) % 2 == 0))
