-- ===== src/Client/Citations/Stream.antt =====
-- pkg/client/citations.go: the filter does not depend on how the text is cut.
use m365plus.Base.{
  ℕ, false, List, [], ◌∷◌, ◌++◌, ◌==◌, ==_iff, nat_eq, ◌≡◌, refl, ap, sym, ◌∙◌, inl, inr, arith,
  append_assoc, append-nil, Bool-cases,
}
use m365plus.Client.Citations.{
  Runes, citation_start, citation_end, scan_rune, scan, push, contains_rune, strip_citations,
}

-- A run that has begun and not ended, or nothing.
abbrev pub IsRun : Runes → Type 0
IsRun [] = Unit {0}
IsRun (c ∷ cs) = (c ≡ citation_start) × (contains_rune citation_end cs ≡ false)

abbrev prepend : Runes → Runes × Runes → Runes × Runes
prepend out r = (out ++ r.0, r.1)

scan-append :
    (held s t : Runes) → scan held (s ++ t) ≡ prepend (scan held s).0 (scan (scan held s).1 t)
unfolding scan
scan-append held [] t = refl
scan-append held (c ∷ s) t = rw (scan-append (scan_rune held c).0 s t) (simp append_assoc)

-- Reading a run again brings the filter back to it.
scan_inside :
    (h : ℕ) (hs cs : Runes)
    → contains_rune citation_end cs ≡ false
    → scan (h ∷ hs) cs ≡ ([], (h ∷ hs) ++ cs)
unfolding scan scan_rune contains_rune
scan_inside h hs [] n = simp append-nil
scan_inside h hs (c ∷ cs) n =
    ground (arith, scan_inside h (hs ++ c ∷ []) cs, append_assoc (h ∷ hs) (c ∷ []) cs)

scan_run :
    (h : ℕ) (hs : Runes)
    → h ≡ citation_start
    → contains_rune citation_end hs ≡ false
    → scan [] (h ∷ hs) ≡ ([], h ∷ hs)
unfolding scan scan_rune
scan_run h hs e n = ground (arith, ==_iff h citation_start, scan_inside h [] hs n)

push-scan : (held s : Runes) → IsRun held → push held s ≡ scan held s
unfolding push
push-scan held [] r = unfold scan in refl
push-scan [] (c ∷ s) r = refl
push-scan (h ∷ hs) (c ∷ s) (e, n) = scan-append [] (h ∷ hs) (c ∷ s) ∙ rw (scan_run h hs e n) refl

contains_rune-snoc :
    (r c : ℕ) (cs : Runes)
    → contains_rune r cs ≡ false
    → (c == r) ≡ false
    → contains_rune r (cs ++ c ∷ []) ≡ false
unfolding contains_rune
contains_rune-snoc r c [] n e = ground arith
contains_rune-snoc r c (d ∷ cs) n e = ground (arith, contains_rune-snoc r c cs)

scan_rune-IsRun : (held : Runes) (c : ℕ) → IsRun held → IsRun (scan_rune held c).0
unfolding scan_rune
scan_rune-IsRun [] c r = elim (Bool-cases (c == citation_start)) [
  | inl e ↦ rw e ((==_iff c citation_start).0 e, unfold contains_rune in refl)
  | inr e ↦ rw e tt
]
scan_rune-IsRun (h ∷ hs) c (s, n) = elim (Bool-cases (c == citation_end)) [
  | inl e ↦ rw e tt
  | inr e ↦ rw e (s, contains_rune-snoc citation_end c hs n e)
]

scan-IsRun : (held s : Runes) → IsRun held → IsRun (scan held s).1
unfolding scan
scan-IsRun held [] r = r
scan-IsRun held (c ∷ s) r = scan-IsRun (scan_rune held c).0 s (scan_rune-IsRun held c r)

abbrev pub join : List Runes → Runes
join [] = []
join (s ∷ ss) = s ++ join ss

-- The filter fed with one chunk after another.
unfoldable pub push_all : Runes → List Runes → Runes × Runes
push_all held [] = ([], held)
push_all held (s ∷ ss) = prepend (push held s).0 (push_all (push held s).1 ss)

-- However a text is cut into chunks, the filter emits the same text and holds the same rest.
pub push_all-scan :
    (held : Runes) (ss : List Runes) → IsRun held → push_all held ss ≡ scan held (join ss)
unfolding push_all
push_all-scan held [] r = unfold scan in refl
push_all-scan held (s ∷ ss) r =
    rw (push-scan held s r, push_all-scan (scan held s).1 ss (scan-IsRun held s r))
      (sym (scan-append held s (join ss)))

contains_rune-append :
    (r : ℕ) (s t : Runes)
    → contains_rune r s ≡ false
    → contains_rune r t ≡ false
    → contains_rune r (s ++ t) ≡ false
unfolding contains_rune
contains_rune-append r [] t n m = m
contains_rune-append r (c ∷ s) t n m = ground (arith, contains_rune-append r s t)

scan_rune-clean : (held : Runes) (c : ℕ) → contains_rune citation_start (scan_rune held c).1 ≡ false
unfolding scan_rune contains_rune
scan_rune-clean [] c = ground arith
scan_rune-clean (h ∷ hs) c = ground arith

scan-clean : (held s : Runes) → contains_rune citation_start (scan held s).0 ≡ false
unfolding scan
scan-clean held [] = unfold contains_rune in refl
scan-clean held (c ∷ s) =
    contains_rune-append citation_start (scan_rune held c).1 (scan (scan_rune held c).0 s).0
      (scan_rune-clean held c) (scan-clean (scan_rune held c).0 s)

scan_plain : (s : Runes) → contains_rune citation_start s ≡ false → scan [] s ≡ (s, [])
unfolding scan scan_rune contains_rune
scan_plain [] n = refl
scan_plain (c ∷ s) n = ground (arith, scan_plain s)

strip_citations-scan : (s : Runes) → strip_citations s ≡ (scan [] s).0
unfolding strip_citations
strip_citations-scan s = elim (Bool-cases (contains_rune citation_start s)) [
  | inl e ↦ rw e (ap (λ r. r.0) (push-scan [] s tt))
  | inr e ↦ rw e (sym (ap (λ r. r.0) (scan_plain s e)))
]

-- The text emitted for the chunks of an answer is the stripped answer, however it is cut, and
-- it has no delimiter of a citation's start.
pub push_all-strip_citations :
    (ss : List Runes)
    → ((push_all [] ss).0 ≡ strip_citations (join ss))
      × (contains_rune citation_start (push_all [] ss).0 ≡ false)
push_all-strip_citations ss = (
  ap (λ r. r.0) (push_all-scan [] ss tt) ∙ sym (strip_citations-scan (join ss)),
  rw (push_all-scan [] ss tt) (scan-clean [] (join ss)),
)
