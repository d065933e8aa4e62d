-- ===== src/Outbound/Health.antt =====
-- pkg/webadmin/outbound/health.go: the health check of one proxy and of all. `probe` is what the
-- request to the health URL through a dialer answers: a status code, or an error.
use m365plus.Base.{
  ℕ, ◌+◌, ◌≡◌, refl, inl, inr, String, Bool, true, false, List, [], ◌∷◌, none, some, leb, ==_refl,
  string_eq, if◌then◌else◌, Bool-cases, ◌∙◌,
}
use m365plus.Outbound.{Entry, Pool, Result, ok, err, mark_entry, update_first, mark}
use m365plus.Outbound.Marks.{find, find-mark, find-update_first}
use m365plus.Outbound.Retry.{urls}

-- The status that `setHealth` is given.
pub data Verdict : Type 0 where
  unknown unreachable upstream_error target_error reachable : Verdict

module _ {C : Type 0} where
  abbrev pub with_health : String → Entry C → Entry C
  with_health status e = record e { health = status }

  unfoldable pub set_health : String → String → Pool C → Pool C
  set_health raw status p = record p { entries = update_first raw (with_health status) p.entries }

  -- What `Check` does with the answer; the error that it returns is given by the verdict.
  unfoldable pub settle : String → Result ℕ → ℕ → Pool C → Verdict × Pool C
  settle raw (err _) now p = (unreachable, set_health raw "unreachable" (mark raw true now p))
  settle raw (ok code) now p =
      let up = mark raw false now p in
      if leb 500 code
      then (upstream_error, set_health raw "upstream_error" up)
      else if leb 400 code
      then (target_error, set_health raw "reachable" up)
      else (reachable, set_health raw "reachable" up)

  unfoldable pub check : (C → Result ℕ) → String → ℕ → Pool C → Verdict × Pool C
  check probe raw now p = elim (find raw p.entries) [
    | none ↦ (unknown, p)
    | some e ↦ settle raw (probe e.clients) now p
  ]

  -- The error text of a verdict is a parameter; there is none for a proxy in good health.
  abbrev pub stamp : (Verdict → String) → Verdict → ℕ → ℕ → Entry C → Entry C
  stamp text v now lat e = record e { last_check = now; latency = lat; last_error = text v }

  -- The loop of `CheckAll` over the URLs it has listed; `clock` and `latency` by URL.
  unfoldable pub check_each :
      (C → Result ℕ)
      → (Verdict → String)
      → (String → ℕ)
      → (String → ℕ)
      → List String
      → Pool C
      → Pool C
  check_each probe text clock latency [] p = p
  check_each probe text clock latency (raw ∷ raws) p =
      let (v, q) = check probe raw (clock raw) p in
      check_each probe text clock latency raws
        (record q { entries = update_first raw (stamp text v (clock raw) (latency raw)) q.entries })

  unfoldable pub check_all :
      (C → Result ℕ) → (Verdict → String) → (String → ℕ) → (String → ℕ) → Pool C → Pool C
  check_all probe text clock latency p = check_each probe text clock latency (urls p) p

  settled :
      (raw status : String) (bad : Bool) (now : ℕ) (p : Pool C) (e : Entry C)
      → find raw p.entries ≡ some e
      → find raw (set_health raw status (mark raw bad now p)).entries
        ≡ some (with_health status (mark_entry bad now e))
  unfolding set_health
  settled raw status bad now p e h =
      find-update_first raw raw (with_health status) (mark raw bad now p).entries
        (mark_entry bad now e) (λ x. refl) (find-mark raw raw bad now p e h ∙ rw (==_refl raw))
      ∙ rw (==_refl raw)

  -- What a check leaves at the proxy that it checked.
  abbrev pub Checked : Result ℕ → ℕ → Entry C → Verdict → Entry C → Type 0
  Checked (err _) now e v e' =
      (v ≡ unreachable)
      × (e'.health ≡ "unreachable")
      × (e'.failures ≡ e.failures + 1)
      × (e'.cooldown ≡ (mark_entry true now e).cooldown)
  Checked (ok code) now e v e' =
      (v ≡ (
        if leb 500 code then upstream_error else if leb 400 code then target_error else reachable))
      × (e'.health ≡ (if leb 500 code then "upstream_error" else "reachable"))
      × (e'.failures ≡ 0)
      × (e'.cooldown ≡ 0)

  settle_lem :
      (raw : String) (answer : Result ℕ) (now : ℕ) (p : Pool C) (e : Entry C)
      → find raw p.entries ≡ some e
      → (e' : Entry C) × (find raw (settle raw answer now p).1.entries ≡ some e')
        × Checked answer now e (settle raw answer now p).0 e'
  unfolding settle mark_entry
  settle_lem raw (err m) now p e h = (
    with_health "unreachable" (mark_entry true now e),
    settled raw "unreachable" true now p e h,
    (refl, refl, refl, refl),
  )
  settle_lem raw (ok code) now p e h = elim (Bool-cases (leb 500 code)) [
    | inl high ↦ (
      with_health "upstream_error" (mark_entry false now e),
      rw high (settled raw "upstream_error" false now p e h),
      (rw high, rw high, refl, refl),
    )
    | inr low ↦ elim (Bool-cases (leb 400 code)) [
      | inl mid ↦ (
        with_health "reachable" (mark_entry false now e),
        rw (low, mid) (settled raw "reachable" false now p e h),
        (rw (low, mid), rw low, refl, refl),
      )
      | inr fine ↦ (
        with_health "reachable" (mark_entry false now e),
        rw (low, fine) (settled raw "reachable" false now p e h),
        (rw (low, fine), rw low, refl, refl),
      )
    ]
  ]

  -- A check of a proxy by its URL: an answer of any status, 5xx included, clears the back-off,
  -- an error lengthens it, and the verdict follows the status.
  pub check_lem :
      (probe : C → Result ℕ) (raw : String) (now : ℕ) (p : Pool C) (e : Entry C)
      → find raw p.entries ≡ some e
      → (e' : Entry C) × (find raw (check probe raw now p).1.entries ≡ some e')
        × Checked (probe e.clients) now e (check probe raw now p).0 e'
  unfolding check
  check_lem probe raw now p e h = rw (h, check) (settle_lem raw (probe e.clients) now p e h)
