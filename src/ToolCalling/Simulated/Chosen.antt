-- ===== src/ToolCalling/Simulated/Chosen.antt =====
-- pkg/toolcalling/simulated.go: which candidate a parse reads.
use m365plus.Base.{
  ℕ, ◌≤◌, ◌<◌, ◌≡◌, refl, ap, sym, ◌∙◌, inl, inr, true, false, List, [], ◌∷◌, Option, none, some,
  ltb, Bytes, Bool-cases, Option-cases, subst, on_each, arith,
}
use m365plus.ToolCalling.Json.{Json, Fields, end}
use m365plus.ToolCalling.Contracts.{Decoded, nil_map, map_of, failed, as_map}
use m365plus.ToolCalling.Simulated.{Best, better, consider, choose, usable}

module _ (decode : Bytes → Option Json) (score : Fields → ℕ) where
  -- The score of a candidate, if it is an object.
  abbrev pub ScoreAtMost : ℕ → Decoded → Type 0
  ScoreAtMost top failed = Unit {0}
  ScoreAtMost top nil_map = score end ≤ top
  ScoreAtMost top (map_of fs) = score fs ≤ top

  abbrev pub ScoresAtMost : ℕ → List Bytes → Type 0
  ScoresAtMost top [] = Unit {0}
  ScoresAtMost top (raw ∷ raws) = ScoreAtMost top (as_map (decode raw)) × ScoresAtMost top raws

  -- What is true of a best candidate after some have been considered.
  abbrev pub IsTop : Best → Type 0
  IsTop none = Unit {0}
  IsTop (some (top, fs)) = score fs ≡ top

  abbrev pub AtLeast : Best → Best → Type 0
  AtLeast none later = Unit {0}
  AtLeast (some (top, fs)) none = true ≡ false
  AtLeast (some (top, fs)) (some (top', fs')) = top ≤ top'

  better_lem :
      (fs : Fields) (best : Best)
      → IsTop best
      → let later = better (score fs) fs best in
        IsTop later × AtLeast best later × AtLeast (some (score fs, fs)) later
  better_lem fs none h = (refl, tt, omega arith)
  better_lem fs (some (top, old)) h =
      on_each
        (λ (x : Best). IsTop x × AtLeast (some (top, old)) x × AtLeast (some (score fs, fs)) x)
        (ltb top (score fs)) (λ more. (refl, ground arith, omega arith))
        (λ less. (h, omega arith, ground arith))

  consider_lem :
      (d : Decoded) (best : Best)
      → IsTop best
      → IsTop (consider score d best) × AtLeast best (consider score d best)
  consider_lem failed none h = (h, tt)
  consider_lem failed (some (top, fs)) h = (h, omega arith)
  consider_lem nil_map best h = let (top, old, new) = better_lem end best h in (top, old)
  consider_lem (map_of fs) best h = let (top, old, new) = better_lem fs best h in (top, old)

  AtLeast-trans : (a b c : Best) → AtLeast a b → AtLeast b c → AtLeast a c
  AtLeast-trans none b c h k = tt
  AtLeast-trans (some x) none c h k = ground arith
  AtLeast-trans (some x) (some y) none h k = ground arith
  AtLeast-trans (some x) (some y) (some z) h k = omega (arith, h, k)

  considered :
      (d : Decoded) (best : Best) (top : ℕ) (fs : Fields)
      → IsTop best
      → AtLeast (consider score d best) (some (top, fs))
      → ScoreAtMost top d
  considered failed best top fs h k = tt
  considered nil_map best top fs h k =
      let (found, old, new) = better_lem end best h in
      AtLeast-trans (some (score end, end)) (better (score end) end best) (some (top, fs)) new k
  considered (map_of x) best top fs h k =
      let (found, old, new) = better_lem x best h in
      AtLeast-trans (some (score x, x)) (better (score x) x best) (some (top, fs)) new k

  -- The candidate that is chosen has the score that is answered, and no candidate has more.
  choose_lem :
      (raws : List Bytes) (best : Best) (top : ℕ) (fs : Fields)
      → IsTop best
      → choose decode score raws best ≡ some (top, fs)
      → (score fs ≡ top) × AtLeast best (some (top, fs)) × ScoresAtMost top raws
  unfolding choose
  choose_lem [] none top fs h e = absurd (ground arith)
  choose_lem [] (some (t, f)) top fs h e = (ground arith, ground arith, tt)
  choose_lem (raw ∷ raws) best top fs h e =
      let d = as_map (decode raw) in
      let (found, kept) = consider_lem d best h in
      let (is_top, more, rest) = choose_lem raws (consider score d best) top fs found e in
      (
        is_top,
        AtLeast-trans best (consider score d best) (some (top, fs)) kept more,
        (considered d best top fs h more, rest),
      )

  usable-some :
      (limit top : ℕ) (best fs : Fields)
      → usable limit (some (top, best)) ≡ some fs
      → (limit < top) × (best ≡ fs)
  usable-some limit top best fs h = elim (Bool-cases (ltb limit top)) [
    | inl more ↦ (ground arith, ground arith)
    | inr less ↦ ground arith
  ]

  -- Of the candidates that are objects, one with the highest score is read, if that is above the
  -- limit, and otherwise none is.
  pub usable-choose :
      (limit : ℕ) (raws : List Bytes) (fs : Fields)
      → usable limit (choose decode score raws none) ≡ some fs
      → (limit < score fs) × ScoresAtMost (score fs) raws
  usable-choose limit raws fs h = elim (Option-cases (choose decode score raws none)) [
    | inl e ↦ ground arith
    | inr ((top, best), e) ↦
        let (is_top, more, rest) = choose_lem raws none top best tt e in
        let (above, same) = usable-some limit top best fs (sym (ap (usable limit) e) ∙ h) in
        subst (λ (x : ℕ). (limit < x) × ScoresAtMost x raws) (sym is_top ∙ ap score same)
          (above, rest)
  ]
