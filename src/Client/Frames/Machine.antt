-- ===== src/Client/Frames/Machine.antt =====
-- The decoder of pkg/client/signalr_frames.go; its state is the buffer.
use m365plus.Base.{
  ℕ, ◌*◌, Bool, true, false, List, [], ◌∷◌, ◌++◌, Option, none, some, ltb, ◌==◌, nat_eq, bytes_eq,
  if◌then◌else◌, length, Bytes,
}
use m365plus.Base.Text.{trim_space}

-- What a call of `Feed` answers, with the buffer that it leaves.
pub data Drained (F : Type 0) : Type 0 where
  frames : List F → Bytes → Drained F
  bad_record : Bytes → Drained F
  overflow : Drained F

abbrev pub delimiter : ℕ
delimiter = 0x1e

abbrev pub max_buffered : ℕ
max_buffered = 8 * 1_048_576

abbrev pub is_blank : Bytes → Bool
is_blank [] = true
is_blank _ = false

module _ {F : Type 0} where
  abbrev pub prepend : List F → Drained F → Drained F
  prepend fs (frames gs b) = frames (fs ++ gs) b
  prepend fs (bad_record b) = bad_record b
  prepend fs overflow = overflow

  -- The end of a record: `after` is what the rest of the buffer gives, `rest` that rest itself.
  unfoldable pub close_record : (Bytes → Option F) → Bytes → Bytes → Drained F → Drained F
  close_record decode cur rest after =
      if is_blank (trim_space cur) then after else elim (decode (trim_space cur)) [
        | none ↦ bad_record rest
        | some f ↦ prepend (f ∷ []) after
      ]

  unfoldable pub drain : (Bytes → Option F) → Bytes → Bytes → Drained F
  drain decode cur [] = frames [] cur
  drain decode cur (b ∷ bs) =
      let ends = close_record decode cur bs (drain decode [] bs) in
      let goes = drain decode (cur ++ b ∷ []) bs in if b == delimiter then ends else goes

  unfoldable pub feed : (Bytes → Option F) → Bytes → Bytes → Drained F
  feed decode buffer chunk =
      let all = buffer ++ chunk in
      if ltb max_buffered (length all) then overflow else drain decode [] all

unfoldable pub is_empty : Bytes → Bool
is_empty buffer = is_blank (trim_space buffer)
