-- ===== src/ToolCalling/StreamExtract/Scan.antt =====
-- pkg/toolcalling/streamextract.go: `scanStreamContentCandidate`, and the search for a candidate.
-- `unquote` is `json.Unmarshal` of a text between quotes into a string.
use m365plus.Base.{
  ℕ, zero, suc, ◌+◌, ◌-◌, Bool, true, false, not, ◌&&◌, [], ◌∷◌, reverse, Option, none, some, ◌==◌,
  nat_eq, bytes_eq, if◌then◌else◌, length, take, drop, min, Bytes,
}
use m365plus.ToolCalling.Candidates.{plain}
use m365plus.ToolCalling.StreamExtract.Text.{
  stream_json_end, skip_stream_whitespace, scan_stream_json_string, ends_with_stream_high_surrogate,
}
use m365plus.ToolCalling.StreamExtract.Shape.{
  Shape, no_shape, Effect, go_on, content_at, colon_effect, Ending, invalid, text_ends, closes,
  content, Moved, moved, over, move,
}

pub record Candidate : Type 0 where
  pub start : ℕ
  pub end : ℕ
  pub complete : Bool
  pub shape_found : Bool
  pub content_found : Bool
  pub content : Bytes

-- Where the loop stands to strings; the bytes of the one it is in, the last first.
pub data Reading : Type 0 where
  outside : Reading
  inside : Bytes → Reading
  behind_backslash : Bytes → Reading

pub data Step : Type 0 where
  stay : Reading → Shape → Step
  stop : Ending → Step

abbrev pub after_move : Moved → Step
after_move (moved sh) = stay outside sh
after_move (over e) = stop e

abbrev pub after_effect : Shape → Effect → Step
after_effect sh (go_on after) = stay outside after
after_effect sh (content_at rest) = stop (content rest sh)

abbrev pub after_token : Shape → ℕ → Bytes → Option Bytes → Step
after_token sh index s none = stay outside sh
after_token sh index s (some token) =
    after_effect sh (colon_effect sh token (skip_stream_whitespace (index + 1) s))

abbrev pub resume : (Reading → Shape → Ending) → Step → Ending
resume go (stay r sh) = go r sh
resume go (stop e) = e

abbrev pub first_is : ℕ → Bytes → Bool
first_is c [] = false
first_is c (d ∷ s) = d == c

module _ (unquote : Bytes → Option Bytes) where
  abbrev pub step_of : Reading → Shape → ℕ → ℕ → Bytes → Step
  step_of outside sh index ch s =
      if ch == b'"' then stay (inside []) sh else after_move (move index sh ch)
  step_of (inside token) sh index ch s =
      if ch == b'\\'
      then stay (behind_backslash (ch ∷ token)) sh
      else if ch == b'"'
      then after_token sh index s (unquote (reverse token))
      else stay (inside (ch ∷ token)) sh
  step_of (behind_backslash token) sh index ch s = stay (inside (ch ∷ token)) sh

  unfoldable pub scan_content : Reading → Shape → ℕ → Bytes → Ending
  scan_content r sh index [] = text_ends sh
  scan_content r sh index (ch ∷ s) =
      resume (λ after next. scan_content after next (index + 1) s) (step_of r sh index ch s)

  abbrev pub first_decoded : Option Bytes → Bytes → Bytes
  first_decoded none rest = rest
  first_decoded (some decoded) rest = decoded

  -- The loop of `decodeStreamJSONPrefix`, from prefixes of a length downwards.
  unfoldable pub decode_from : ℕ → ℕ → Bool → Bytes → Bytes
  decode_from zero size complete raw = []
  decode_from (suc left) size complete raw =
      let shorter = decode_from left (size - 1) complete raw in
      let prefix = take size raw in
      if not complete && ends_with_stream_high_surrogate prefix
      then shorter
      else first_decoded (unquote prefix) shorter

  unfoldable pub decode_stream_json_prefix : Bytes → Bool → Bytes
  decode_stream_json_prefix raw complete =
      decode_from (min (length raw) 16 + 1) (length raw) complete raw

  abbrev pub content_of : Bytes → Bytes
  content_of [] = []
  content_of (ch ∷ s) =
      let (text, complete) = scan_stream_json_string false s in
      if ch == b'"' then decode_stream_json_prefix text complete else []

  abbrev pub shaped : ℕ → ℕ → Bool → Shape → Option Candidate
  shaped start end complete sh =
      if sh.shape_found
      then some (record {
        start = start;
        end = end;
        complete = complete;
        shape_found = true;
        content_found = false;
        content = [];
      })
      else none

  abbrev pub candidate_of : Bytes → ℕ → Ending → Option Candidate
  candidate_of raw start invalid = none
  candidate_of raw start (text_ends sh) = shaped start (length raw) false sh
  candidate_of raw start (closes end sh) = shaped start end true sh
  candidate_of raw start (content rest sh) =
      let (end, complete) = stream_json_end (plain 0) start (drop start raw) in
      some (record {
        start = start;
        end = end;
        complete = complete;
        shape_found = sh.shape_found;
        content_found = true;
        content = content_of rest;
      })

  unfoldable pub scan_stream_content_candidate : Bytes → ℕ → Option Candidate
  scan_stream_content_candidate raw start =
      if first_is b'{' (drop start raw)
      then candidate_of raw start (scan_content outside no_shape start (drop start raw))
      else none

  unfoldable pub find_brace : ℕ → Bytes → Option ℕ
  find_brace index [] = none
  find_brace index (ch ∷ s) =
      let rest = find_brace (index + 1) s in if ch == b'{' then some index else rest

  abbrev pub is_shaped : Option Candidate → Bool
  is_shaped none = false
  is_shaped (some c) = c.shape_found

  abbrev pub search_at : (ℕ → Option Candidate) → Bytes → Option ℕ → Option Candidate
  search_at go buffer none = none
  search_at go buffer (some start) =
      let (end, complete) = stream_json_end (plain 0) start (drop start buffer) in
      let candidate = scan_stream_content_candidate buffer start in
      let further = go end in
      if is_shaped candidate then candidate else if complete then further else none

  -- The search for a candidate; each round takes one byte or more off the buffer.
  unfoldable pub search : ℕ → Bytes → ℕ → Option Candidate
  search zero buffer index = none
  search (suc fuel) buffer index =
      search_at (search fuel buffer) buffer (find_brace index (drop index buffer))
