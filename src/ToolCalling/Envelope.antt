-- ===== src/ToolCalling/Envelope.antt =====
-- pkg/toolcalling/envelope.go: what is withheld of an answer, line by line.
pub mod Kept
use m365plus.Base.{
  ℕ, String, Bool, true, false, not, ◌&&◌, ◌||◌, List, [], ◌∷◌, ◌++◌, ◌==◌, nat_eq, bytes_eq,
  if◌then◌else◌, drop, Bytes,
}
use m365plus.Base.Text.{codes, trim_space, has_prefix, to_lower}
use m365plus.ToolCalling.Thinking.{is_fence, is_transport_thinking_line, newline}

-- `strings.SplitSeq(text, "\n")` and `strings.Join(lines, "\n")`.
abbrev pub cons_head : ℕ → List Bytes → List Bytes
cons_head c [] = (c ∷ []) ∷ []
cons_head c (l ∷ ls) = (c ∷ l) ∷ ls

unfoldable pub split_lines : Bytes → List Bytes
split_lines [] = [] ∷ []
split_lines (c ∷ cs) =
    let rest = split_lines cs in if c == newline then [] ∷ rest else cons_head c rest

unfoldable pub join_lines : List Bytes → Bytes
join_lines [] = []
join_lines (l ∷ []) = l
join_lines (l ∷ m ∷ ls) = l ++ newline ∷ join_lines (m ∷ ls)

unfoldable pub is_envelope_fence_info : Bytes → Bool
is_envelope_fence_info info =
    let tag = to_lower (trim_space info) in
    tag == [] || tag == codes "json" || tag == codes "jsonc" || tag == codes "json5"

-- What becomes of a line: it is kept, dropped as withheld, or dropped inside an envelope.
pub data Fate : Type 0 where
  kept : Fate
  withheld : Fate
  inside : Fate

pub record Scan : Type 0 where
  pub in_fence : Bool
  pub fence_is_envelope : Bool

-- One round of the loop: the line's fate, and the state after it.
unfoldable pub scan_line : Scan → Bytes → Fate × Scan
scan_line s line =
    let trimmed = trim_space line in
    let opens = is_envelope_fence_info (drop 3 trimmed) in
    if is_fence line
    then (if s.in_fence
        then (if s.fence_is_envelope then withheld else kept, record s { in_fence = false })
        else (
          if opens then withheld else kept,
          record { in_fence = true; fence_is_envelope = opens },
        ))
    else if s.in_fence
    then (if s.fence_is_envelope then inside else kept, s)
    else if not (trimmed == []) && is_transport_thinking_line trimmed
    then (withheld, s)
    else (kept, s)

abbrev pub add_line : Fate → Bytes → List Bytes × Bool → List Bytes × Bool
add_line kept l (ls, w) = (l ∷ ls, w)
add_line withheld l (ls, w) = (ls, true)
add_line inside l r = r

-- The lines kept, and whether anything was withheld.
unfoldable pub scan_lines : Scan → List Bytes → List Bytes × Bool
scan_lines s [] = ([], false)
scan_lines s (l ∷ ls) = add_line (scan_line s l).0 l (scan_lines (scan_line s l).1 ls)

abbrev pub outside : Scan
outside = record { in_fence = false; fence_is_envelope = false }

unfoldable pub strip_transport_envelope : Bytes → Bytes × Bool
strip_transport_envelope [] = ([], false)
strip_transport_envelope (c ∷ cs) =
    let r = scan_lines outside (split_lines (c ∷ cs)) in
    if r.1 then (trim_space (join_lines r.0), true) else (c ∷ cs, false)

abbrev pub withheld_envelope_notice : Bytes
withheld_envelope_notice =
    codes
      "The backend returned an unparseable tool-calling envelope instead of an answer. Please retry this request."

unfoldable pub withhold_transport_envelope : Bytes → Bytes
withhold_transport_envelope text =
    let r = strip_transport_envelope text in
    if not r.1 then text else if trim_space r.0 == [] then withheld_envelope_notice else r.0
