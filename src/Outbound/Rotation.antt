-- ===== src/Outbound/Rotation.antt =====
-- What `pick` answers: a proxy that is not cooling down wherever there is one, in turn.
use native.Mathlib.Nat.{mod-lt}
use m365plus.Base.{
  ℕ, zero, suc, ◌+◌, ◌%◌, ◌≤◌, ◌<◌, ◌≡◌, ◌⊎◌, refl, inl, inr, Bool, true, false, none, some, arith,
  Bool-cases, Option-cases, length, get_elem?, get_elem?_total,
}
use m365plus.Outbound.{Entry, Pool, first_round, is_cooling, pick}

-- The loop stops at the first round that the test does not skip.
first_round-first :
    (skip : ℕ → Bool) (left i j : ℕ)
    → first_round skip left i ≡ some j
    → (i ≤ j) × (j < i + left) × (skip j ≡ false) × ((k : ℕ) → i ≤ k → k < j → skip k ≡ true)
unfolding first_round
first_round-first skip zero i j h = cc
first_round-first skip (suc left) i j h = elim (Bool-cases (skip i)) [
  | inl busy ↦
      let later = first_round-first skip left (i + 1) j (ground arith) in
      (omega arith, omega arith, later.2, λ k lo hi. ground (arith, later.3 k))
  | inr free ↦
      let here : i ≡ j = ground arith in
      (omega arith, omega arith, ground arith, λ k lo hi. absurd (omega arith))
]

first_round-none :
    (skip : ℕ → Bool) (left i k : ℕ)
    → first_round skip left i ≡ none
    → i ≤ k
    → k < i + left
    → skip k ≡ true
unfolding first_round
first_round-none skip zero i k h lo hi = absurd (omega arith)
first_round-none skip (suc left) i k h lo hi = ground (arith, first_round-none skip left (i + 1) k)

module _ {C : Type 0} where
  -- Where the pool has a proxy, `pick` answers one; it is the first in turn that is not cooling
  -- down, and where all are cooling down it is the next in turn.
  abbrev pub Picks : Pool C → ℕ → ℕ → Type 0
  Picks p now i =
      ((is_cooling p now i ≡ false) × ((k : ℕ) → k < i → is_cooling p now k ≡ true))
      ⊎ ((i ≡ 0) × ((k : ℕ) → k < length p.entries → is_cooling p now k ≡ true))

  -- The round that `pick` settles on.
  abbrev pub Turn : Pool C → ℕ → ℕ → Type 0
  Turn p now i =
      (e : Entry C) × (i < length p.entries)
      × (get_elem? p.entries ((p.next + i) % length p.entries) ≡ some e)
      × (pick p now ≡ (some e, record p { next = (p.next + i + 1) % length p.entries }))
      × Picks p now i

  Turn-ready :
      (p : Pool C) (now i : ℕ)
      → 0 < length p.entries
      → first_round (is_cooling p now) (length p.entries) 0 ≡ some i
      → Turn p now i
  unfolding pick
  Turn-ready p now i h found =
      let first = first_round-first (is_cooling p now) (length p.entries) 0 i found in
      let (e, at) =
        get_elem?_total p.entries ((p.next + i) % length p.entries) (mod-lt (p.next + i) h) in
      (
        e,
        omega arith,
        at,
        rw (found, at) (ground arith),
        inl (first.2, λ k lt. first.3 k (omega arith) lt),
      )

  Turn-none :
      (p : Pool C) (now : ℕ)
      → 0 < length p.entries
      → first_round (is_cooling p now) (length p.entries) 0 ≡ none
      → Turn p now 0
  unfolding pick
  Turn-none p now h found =
      let (e, at) = get_elem?_total p.entries (p.next % length p.entries) (mod-lt p.next h) in
      let z : p.next + 0 ≡ p.next = omega arith in
      (
        e,
        h,
        rw z at,
        rw (found, z, at) (ground arith),
        inr (
          refl,
          λ k lt.
              first_round-none (is_cooling p now) (length p.entries) 0 k found (omega arith)
                (omega arith),
        ),
      )

  -- From a pool that is not empty `pick` answers the first proxy in turn that is not cooling
  -- down, or the next in turn where all of them are, and the turn moves past it.
  pub pick-Turn : (p : Pool C) (now : ℕ) → 0 < length p.entries → (i : ℕ) × Turn p now i
  pick-Turn p now h = elim (Option-cases (first_round (is_cooling p now) (length p.entries) 0)) [
    | inl e ↦ (0, Turn-none p now h e)
    | inr (i, e) ↦ (i, Turn-ready p now i h e)
  ]
