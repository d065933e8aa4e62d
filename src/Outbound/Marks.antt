-- ===== src/Outbound/Marks.antt =====
-- pkg/webadmin/outbound/pool.go: what `mark` does to the back-off of a proxy.
use m365plus.Base.{
  ℕ, suc, ◌+◌, ◌*◌, ◌≡◌, refl, min, String, Bool, true, false, List, [], ◌∷◌, Option, none, some,
  arith, ◌==◌, ==_iff, ==_refl, string_eq, if◌then◌else◌, length,
}
use m365plus.Outbound.{Entry, Pool, mark_entry, update_first, mark, cooling}

module _ {C : Type 0} where
  -- The first entry of a URL.
  unfoldable pub find : String → List (Entry C) → Option (Entry C)
  find raw [] = none
  find raw (e ∷ es) = if e.raw == raw then some e else find raw es

  pub mark_entry-raw : (bad : Bool) (now : ℕ) (e : Entry C) → (mark_entry bad now e).raw ≡ e.raw
  unfolding mark_entry
  mark_entry-raw bad now e = ground arith

  pub find-update_first :
      (raw v : String) (f : Entry C → Entry C) (es : List (Entry C)) (e : Entry C)
      → ((x : Entry C) → (f x).raw ≡ x.raw)
      → find raw es ≡ some e
      → find v (update_first raw f es) ≡ (if raw == v then some (f e) else find v es)
  unfolding find update_first
  find-update_first raw v f [] e keep h = cc
  find-update_first raw v f (x ∷ es) e keep h = ground (
    arith,
    keep x,
    ==_iff x.raw raw,
    ==_iff x.raw v,
    ==_iff raw v,
    find-update_first raw v f es e keep,
  )

  -- `mark` changes the proxy of its URL, as the outcome asks, and no other.
  pub find-mark :
      (raw v : String) (bad : Bool) (now : ℕ) (p : Pool C) (e : Entry C)
      → find raw p.entries ≡ some e
      → find v (mark raw bad now p).entries
        ≡ (if raw == v then some (mark_entry bad now e) else find v p.entries)
  unfolding mark
  find-mark raw v bad now p e h =
      find-update_first raw v (mark_entry bad now) p.entries e (mark_entry-raw bad now) h

  -- Failures in a row at one proxy, the last first, at the times given.
  unfoldable pub fail_at : String → List ℕ → Pool C → Pool C
  fail_at raw [] p = p
  fail_at raw (now ∷ before) p = mark raw true now (fail_at raw before p)

  abbrev pub After : ℕ → Entry C → List ℕ → Entry C → Type 0
  After n e [] e' = e' ≡ e
  After n e (now ∷ before) e' =
      (e'.failures ≡ e.failures + n) × (e'.cooldown ≡ now + min ((e.failures + n) * 2) 120)

  After-failures :
      (e : Entry C) (times : List ℕ) (e' : Entry C)
      → After (length times) e times e'
      → e'.failures ≡ e.failures + length times
  After-failures e [] e' h = rw h (omega arith)
  After-failures e (now ∷ before) e' h = h.0

  After-step :
      (now : ℕ) (e : Entry C) (before : List ℕ) (x : Entry C)
      → x.failures ≡ e.failures + length before
      → After (suc (length before)) e (now ∷ before) (mark_entry true now x)
  unfolding mark_entry
  After-step now e before x h =
      let k : x.failures + 1 ≡ e.failures + suc (length before) = omega arith in (k, rw k)

  -- After n failures in a row the proxy rests for two seconds for each, two minutes at most, from
  -- the last of them; one success makes it ready at once.
  pub back_off :
      (raw : String) (times : List ℕ) (p : Pool C) (e : Entry C)
      → find raw p.entries ≡ some e
      → (e' : Entry C) × (find raw (fail_at raw times p).entries ≡ some e')
        × After (length times) e times e'
  unfolding fail_at
  back_off raw [] p e h = (e, h, refl)
  back_off raw (now ∷ before) p e h =
      let (x, at, was) = back_off raw before p e h in
      let count = After-failures e before x was in
      (
        mark_entry true now x,
        rw (find-mark raw raw true now (fail_at raw before p) x at, ==_refl raw),
        After-step now e before x count,
      )

  pub cooling-mark_ok :
      (raw : String) (now later : ℕ) (p : Pool C) (e : Entry C)
      → find raw p.entries ≡ some e
      → cooling later (find raw (mark raw false now p).entries) ≡ false
  cooling-mark_ok raw now later p e h =
      rw (find-mark raw raw false now p e h, ==_refl raw) (unfold mark_entry in ground arith)
