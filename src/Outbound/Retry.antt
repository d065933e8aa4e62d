-- ===== src/Outbound/Retry.antt =====
-- pkg/webadmin/outbound/pool.go: `poolRoundTripper.RoundTrip`. `trip n c` is what the transport of dialer `c` answers at attempt `n`, and
-- `clock n` the n-th reading of the clock.
use m365plus.Base.{
  ℕ, zero, suc, ◌+◌, ◌*◌, ◌≡◌, ◌≢◌, refl, inl, inr, String, Bool, true, false, not, List, [], ◌∷◌,
  Option, none, some, arith, ◌==◌, ==_iff, string_eq, ◌∙◌, if◌then◌else◌, Bool-cases, Option-cases,
  length, map,
}
use m365plus.Outbound.{
  Entry, Pool, Result, ok, err, failed, pick, mark, mark_entry, update_first, Result-cases,
}

-- A nil function that is called panics.
pub data Outcome (R : Type 0) : Type 0 where
  replied : R → Outcome R
  refused : String → Outcome R
  panicked : Outcome R

-- The two fields of a request that `RoundTrip` reads: whether `Body` is set, and `GetBody`, which
-- may be nil, or answer at its n-th call a body or an error.
pub record Request : Type 0 where
  pub has_body : Bool
  pub get_body : Option (ℕ → Bool)

-- `r.Body != nil && r.GetBody == nil`.
unfoldable pub no_replay : Request → Bool
no_replay req = elim req.get_body [ none ↦ req.has_body | some _ ↦ false ]

module _ {C R : Type 0} (trip : ℕ → C → Result R) (clock : ℕ → ℕ) where
  -- One attempt of the loop, on the entry picked. `again` is the rest of the loop.
  unfoldable pub attempt :
      Option (ℕ → Bool)
      → ℕ
      → String
      → Entry C
      → Pool C
      → (Pool C → Outcome R × Pool C)
      → Outcome R × Pool C
  attempt none n why e p again = (panicked, p)
  attempt (some body) n why e p again =
      if not (body n)
      then (refused why, p)
      else let tried = trip n e.clients in
        let q = mark e.raw (failed tried) (clock (2 * n + 1)) p in
        elim tried [ ok r ↦ (replied r, q) | err _ ↦ again q ]

  unfoldable pub retry : ℕ → ℕ → Request → String → String → Pool C → Outcome R × Pool C
  retry zero n req why first p = (refused why, p)
  retry (suc left) n req why first p =
      let (picked, q) = pick p (clock (2 * n)) in
      let again = λ (q' : Pool C). retry left (n + 1) req why first q' in
      elim picked [
        | none ↦ (refused why, q)
        | some e ↦ if e.raw == first then (refused why, q) else attempt req.get_body n why e q again
      ]

  unfoldable pub round_trip : Request → Entry C → Pool C → Outcome R × Pool C
  round_trip req e p =
      let tried = trip 0 e.clients in
      let q = mark e.raw (failed tried) (clock 0) p in
      elim tried [
        | ok r ↦ (replied r, q)
        | err why ↦
            if no_replay req
            then (refused why, q)
            else retry (length q.entries + 1) 1 req why e.raw q
      ]

module _ {C : Type 0} where
  -- The URLs of a pool, in its order.
  abbrev pub urls : Pool C → List String
  urls p = map (λ e. e.raw) p.entries

  urls-update_first :
      (raw : String) (f : Entry C → Entry C) (es : List (Entry C))
      → ((e : Entry C) → (f e).raw ≡ e.raw)
      → map (λ e. e.raw) (update_first raw f es) ≡ map (λ e. e.raw) es
  unfolding update_first
  urls-update_first raw f [] h = refl
  urls-update_first raw f (e ∷ es) h = ground (arith, h e, urls-update_first raw f es h)

  pub urls-mark :
      (raw : String) (bad : Bool) (now : ℕ) (p : Pool C) → urls (mark raw bad now p) ≡ urls p
  unfolding mark mark_entry
  urls-mark raw bad now p = urls-update_first raw (mark_entry bad now) p.entries (λ e. ground arith)

  pub urls-pick : (p : Pool C) (now : ℕ) → urls (pick p now).1 ≡ urls p
  unfolding pick
  urls-pick p now = ground arith

module _ {C R : Type 0} (trip : ℕ → C → Result R) (clock : ℕ → ℕ) where
  urls-attempt :
      (body : Option (ℕ → Bool)) (n : ℕ) (why : String) (e : Entry C) (p : Pool C)
      (again : Pool C → Outcome R × Pool C)
      → ((q : Pool C) → urls (again q).1 ≡ urls q)
      → urls (attempt trip clock body n why e p again).1 ≡ urls p
  unfolding attempt
  urls-attempt none n why e p again keep = refl
  urls-attempt (some body) n why e p again keep = ground (
    arith,
    urls-mark e.raw true (clock (2 * n + 1)) p,
    urls-mark e.raw false (clock (2 * n + 1)) p,
    keep (mark e.raw true (clock (2 * n + 1)) p),
  )

  urls-retry :
      (left n : ℕ) (req : Request) (why first : String) (p : Pool C)
      → urls (retry trip clock left n req why first p).1 ≡ urls p
  unfolding retry
  urls-retry zero n req why first p = refl
  urls-retry (suc left) n req why first p = elim (Option-cases (pick p (clock (2 * n))).0) [
    | inl e ↦ rw (e, retry) (urls-pick p (clock (2 * n)))
    | inr (x, e) ↦
        rw (e, retry)
          (elim (Bool-cases (x.raw == first)) [
            | inl same ↦ rw same (urls-pick p (clock (2 * n)))
            | inr other ↦ rw other (
                urls-attempt req.get_body n why x (pick p (clock (2 * n))).1 _
                  (λ q. urls-retry left (n + 1) req why first q)
                ∙ urls-pick p (clock (2 * n)))
          ])
  ]

  -- A round trip, retries included, neither adds a proxy to the pool nor drops one.
  pub urls-round_trip :
      (req : Request) (e : Entry C) (p : Pool C) → urls (round_trip trip clock req e p).1 ≡ urls p
  unfolding round_trip
  urls-round_trip req e p = elim (Result-cases (trip 0 e.clients)) [
    | inl (r, done) ↦ rw (done, round_trip) (urls-mark e.raw _ (clock 0) p)
    | inr (why, bad) ↦
        rw (bad, round_trip)
          (elim (Bool-cases (no_replay req)) [
            | inl stop ↦ rw stop (urls-mark e.raw _ (clock 0) p)
            | inr more ↦ rw more (urls-retry _ 1 req why e.raw _ ∙ urls-mark e.raw _ (clock 0) p)
          ])
  ]

  -- A request without a body, whose `GetBody` is therefore nil, panics as soon as its first proxy
  -- fails and the pool has another one to try.
  pub round_trip_panics :
      (req : Request) (e next : Entry C) (p : Pool C) (why : String)
      → req.has_body ≡ false
      → req.get_body ≡ none
      → trip 0 e.clients ≡ err why
      → (pick (mark e.raw true (clock 0) p) (clock 2)).0 ≡ some next
      → next.raw ≢ e.raw
      → (round_trip trip clock req e p).0 ≡ panicked
  unfolding round_trip retry attempt no_replay
  round_trip_panics req e next p why nb ng bad picks other = ground (arith, ==_iff next.raw e.raw)
