-- ===== src/ToolCalling/Envelope/Kept.antt =====
-- pkg/toolcalling/envelope.go: what `StripTransportEnvelope` keeps.
use m365plus.Base.{
  ℕ, false, not, ◌&&◌, List, [], ◌∷◌, ◌==◌, ==_iff, ==_apart, nat_eq, bytes_eq, bytes_beq, Bytes,
  ◌≡◌, ◌≢◌, refl, ap, ◌∙◌, subst, ◌⊎◌, inl, inr, arith, Bool-cases,
}
use m365plus.Base.Text.{trim_space}
use m365plus.ToolCalling.Thinking.{newline}
use m365plus.ToolCalling.Envelope.{
  cons_head, split_lines, join_lines, kept, withheld, inside, Scan, scan_line, scan_lines,
  strip_transport_envelope, withheld_envelope_notice, withhold_transport_envelope,
}

-- The state of a scan of what was kept, where the scan of the whole is in the state given.
abbrev pub residue : Scan → Scan
residue s = record { in_fence = s.in_fence && not s.fence_is_envelope; fence_is_envelope = false }

join_lines-cons_head : (c : ℕ) (ls : List Bytes) → join_lines (cons_head c ls) ≡ c ∷ join_lines ls
unfolding join_lines
join_lines-cons_head c [] = refl
join_lines-cons_head c (l ∷ []) = refl
join_lines-cons_head c (l ∷ m ∷ ls) = refl

join_lines-nil_cons :
    (t : Bytes) → join_lines ([] ∷ split_lines t) ≡ newline ∷ join_lines (split_lines t)
unfolding join_lines split_lines
join_lines-nil_cons [] = refl
join_lines-nil_cons (c ∷ cs) = elim (Bool-cases (c == newline)) [
  | inl e ↦ rw e refl
  | inr e ↦ rw e (nil-cons_head (split_lines cs))
]
  where
    nil-cons_head :
        (ls : List Bytes) → join_lines ([] ∷ cons_head c ls) ≡ newline ∷ join_lines (cons_head c ls)
    nil-cons_head [] = refl
    nil-cons_head (l ∷ ls) = refl

-- Cutting a text into lines loses nothing.
pub join_lines-split_lines : (t : Bytes) → join_lines (split_lines t) ≡ t
unfolding split_lines
join_lines-split_lines [] = unfold join_lines in refl
join_lines-split_lines (c ∷ cs) = elim (Bool-cases (c == newline)) [
  | inl e ↦
      rw e (join_lines-nil_cons cs ∙ ground (arith, join_lines-split_lines cs, ==_iff c newline, e))
  | inr e ↦ rw e (join_lines-cons_head c (split_lines cs) ∙ ap (◌∷◌ c) (join_lines-split_lines cs))
]

-- A line that is kept is kept again, and a line that is dropped leaves the state as it was.
scan_line_settled :
    (s : Scan) (l : Bytes)
    → (((scan_line s l).0 ≡ kept) × (scan_line (residue s) l ≡ (kept, residue (scan_line s l).1)))
      ⊎ ((((scan_line s l).0 ≡ withheld) ⊎ ((scan_line s l).0 ≡ inside))
          × (residue (scan_line s l).1 ≡ residue s))
unfolding scan_line
scan_line_settled s l = ground arith

-- The lines that a scan keeps have nothing left to withhold: no envelope's fence, no line of an
-- envelope, and no narration outside of a fence.
pub scan_lines_settled :
    (s : Scan) (ls : List Bytes)
    → scan_lines (residue s) (scan_lines s ls).0 ≡ ((scan_lines s ls).0, false)
unfolding scan_lines
scan_lines_settled s [] = refl
scan_lines_settled s (l ∷ ls) = elim (scan_line_settled s l) [
  | inl (k, e) ↦ rw (k, scan_lines, e, scan_lines_settled (scan_line s l).1 ls) refl
  | inr (inl k, e) ↦ rw k (
      subst
        (λ r.
          scan_lines r (scan_lines (scan_line s l).1 ls).0
          ≡ ((scan_lines (scan_line s l).1 ls).0, false))
        e (scan_lines_settled (scan_line s l).1 ls))
  | inr (inr k, e) ↦ rw k (
      subst
        (λ r.
          scan_lines r (scan_lines (scan_line s l).1 ls).0
          ≡ ((scan_lines (scan_line s l).1 ls).0, false))
        e (scan_lines_settled (scan_line s l).1 ls))
]

notice_full : trim_space withheld_envelope_notice ≢ []
unfolding trim_space bytes_beq
notice_full = ==_apart (trim_space withheld_envelope_notice) [] refl

-- An answer that is not blank is never made blank.
pub withhold_transport_envelope_full :
    (text : Bytes) → trim_space text ≢ [] → trim_space (withhold_transport_envelope text) ≢ []
unfolding withhold_transport_envelope
withhold_transport_envelope_full text h =
    let r = strip_transport_envelope text in
    elim (Bool-cases (not r.1)) [
      | inl e ↦ rw e h
      | inr e ↦ elim (Bool-cases (trim_space r.0 == [])) [
        | inl f ↦ rw (e, f) notice_full
        | inr f ↦ rw (e, f) (==_apart (trim_space r.0) [] f)
      ]
    ]
