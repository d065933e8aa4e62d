-- ===== src/ToolCalling/Candidates.antt =====
-- pkg/toolcalling/simulated.go: the texts in an answer that may be its JSON. A place in the text is
-- what is left of it from there. The loop over fences has as much fuel as the text has bytes, of
-- which each round takes some.
pub mod Distinct
pub mod Balanced
use m365plus.Base.{
  ℕ, zero, suc, ◌+◌, ◌-◌, Bool, true, false, not, ◌&&◌, ◌||◌, List, [], ◌∷◌, ◌++◌, Option, none,
  some, ◌==◌, nat_eq, bytes_eq, if◌then◌else◌, length, drop, Bytes,
}
use m365plus.Base.Text.{codes, trim_space, has_prefix}

abbrev pub max_candidates : ℕ
max_candidates = 128

abbrev pub cons_before : ℕ → Option (Bytes × Bytes) → Option (Bytes × Bytes)
cons_before c none = none
cons_before c (some (before, after)) = some (c ∷ before, after)

-- What stands before and behind the first `sub`.
unfoldable pub cut : Bytes → Bytes → Option (Bytes × Bytes)
cut sub [] = if has_prefix [] sub then some ([], []) else none
cut sub (c ∷ s) =
    let rest = cut sub s in
    if has_prefix (c ∷ s) sub then some ([], drop (length sub) (c ∷ s)) else cons_before c rest

abbrev pub cons_byte : ℕ → Option Bytes → Option Bytes
cons_byte c none = none
cons_byte c (some s) = some (c ∷ s)

-- The variables of the loop of `extractBalancedJSONSegment`, and that it has returned.
pub data Balance : Type 0 where
  plain : ℕ → Balance
  quoted : ℕ → Balance
  escaped : ℕ → Balance
  closed : Balance

unfoldable pub next_balance : ℕ → ℕ → Balance → ℕ → Balance
next_balance opening closing (escaped depth) ch = quoted depth
next_balance opening closing (quoted depth) ch =
    if ch == b'\\' then escaped depth else if ch == b'"' then plain depth else quoted depth
next_balance opening closing (plain depth) ch =
    if ch == b'"'
    then quoted depth
    else if ch == opening
    then plain (depth + 1)
    else if ch == closing
    then (if depth == 1 then closed else plain (depth - 1))
    else plain depth
next_balance opening closing closed ch = closed

-- A segment that ends here, or goes on.
abbrev pub until_closed : Balance → ℕ → Option Bytes → Option Bytes
until_closed closed ch rest = some (ch ∷ [])
until_closed (plain _) ch rest = cons_byte ch rest
until_closed (quoted _) ch rest = cons_byte ch rest
until_closed (escaped _) ch rest = cons_byte ch rest

unfoldable pub scan_balanced : ℕ → ℕ → Balance → Bytes → Option Bytes
scan_balanced opening closing b [] = none
scan_balanced opening closing b (ch ∷ s) =
    let after = next_balance opening closing b ch in
    until_closed after ch (scan_balanced opening closing after s)

abbrev pub closing_of : ℕ → ℕ
closing_of opening = if opening == b'{' then b'}' else b']'

abbrev pub or_blank : Option Bytes → Bytes
or_blank none = []
or_blank (some s) = trim_space s

unfoldable pub extract_balanced_json_segment : ℕ → Bytes → Bytes
extract_balanced_json_segment opening s =
    or_blank (scan_balanced opening (closing_of opening) (plain 0) s)

-- `left` is how many segments may still be emitted.
unfoldable pub balanced_segments : ℕ → Bytes → List Bytes
balanced_segments left [] = []
balanced_segments left (ch ∷ s) =
    let segment = extract_balanced_json_segment ch (ch ∷ s) in
    let emits = not (left == 0) && ((ch == b'{' || ch == b'[') && not (segment == [])) in
    let rest = balanced_segments (if emits then left - 1 else left) s in
    if emits then segment ∷ rest else rest

abbrev pub extract_balanced_json_segments : Bytes → List Bytes
extract_balanced_json_segments raw = balanced_segments max_candidates raw

abbrev pub line_behind : Option (Bytes × Bytes) → Option (Bytes × Bytes)
line_behind none = none
line_behind (some (before, after)) = cut (codes "\n") after

-- The body of the first fence, and what stands behind it.
abbrev pub first_fence : Bytes → Option (Bytes × Bytes)
first_fence s = elim (line_behind (cut (codes "```") s)) [
  | none ↦ none
  | some (info, body) ↦ cut (codes "```") body
]

abbrev pub more_fences : (Bytes → List Bytes) → Option (Bytes × Bytes) → List Bytes
more_fences go none = []
more_fences go (some (body, after)) = body ∷ go after

unfoldable pub fence_bodies : ℕ → Bytes → List Bytes
fence_bodies zero s = []
fence_bodies (suc fuel) s = more_fences (fence_bodies fuel) (first_fence s)

unfoldable pub is_seen : Bytes → List Bytes → Bool
is_seen n [] = false
is_seen n (s ∷ ss) = s == n || is_seen n ss

-- `add`, and the calls of it.
unfoldable pub add : List Bytes → Bytes → List Bytes
add out s =
    let n = trim_space s in if n == [] then out else if is_seen n out then out else out ++ n ∷ []

unfoldable pub add_all : List Bytes → List Bytes → List Bytes
add_all out [] = out
add_all out (s ∷ ss) = add_all (add out s) ss

unfoldable pub enumerate_json_candidates : Bytes → List Bytes
enumerate_json_candidates raw =
    if trim_space raw == []
    then []
    else add_all (add_all (add [] (trim_space raw)) (fence_bodies (length raw) raw))
        (extract_balanced_json_segments raw)
