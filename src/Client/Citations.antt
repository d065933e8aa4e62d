-- ===== src/Client/Citations.antt =====
-- pkg/client/citations.go: the filter of citation runs. A text is the list of its code points;
-- `held` is the run that has not ended, empty outside of a run.
pub mod Stream
use m365plus.Base.{ℕ, Bool, true, false, List, [], ◌∷◌, ◌++◌, ◌==◌, nat_eq, if◌then◌else◌}

abbrev pub Runes : Type 0
Runes = List ℕ

abbrev pub citation_start : ℕ
citation_start = 0xe200

abbrev pub citation_end : ℕ
citation_end = 0xe201

-- One character of the scan: the run held after it, and what is emitted.
unfoldable pub scan_rune : Runes → ℕ → Runes × Runes
scan_rune [] c = if c == citation_start then (c ∷ [], []) else ([], c ∷ [])
scan_rune (h ∷ hs) c = if c == citation_end then ([], []) else ((h ∷ hs) ++ c ∷ [], [])

-- The loop of `push`: what is emitted, and what stays pending.
unfoldable pub scan : Runes → Runes → Runes × Runes
scan held [] = ([], held)
scan held (c ∷ cs) =
    let rest = scan (scan_rune held c).0 cs in ((scan_rune held c).1 ++ rest.0, rest.1)

-- `push`: the text that is safe to emit, and the filter's `pending`.
unfoldable pub push : Runes → Runes → Runes × Runes
push pending [] = ([], pending)
push pending (c ∷ cs) = scan [] (pending ++ c ∷ cs)

-- `flush`: what was held, and the empty filter.
unfoldable pub flush : Runes → Runes × Runes
flush pending = (pending, [])

unfoldable pub contains_rune : ℕ → Runes → Bool
contains_rune r [] = false
contains_rune r (c ∷ cs) = if c == r then true else contains_rune r cs

unfoldable pub strip_citations : Runes → Runes
strip_citations s = if contains_rune citation_start s then (push [] s).0 else s
