-- ===== src/ToolCalling/Ledger/Build.antt =====
-- pkg/toolcalling/ledger.go: what `BuildLedger` finds in a history.
use m365plus.Base.{
  ℕ, ◌≡◌, refl, sym, ap, ◌∙◌, inl, inr, String, Bool, true, false, ◌||◌, List, [], ◌∷◌, ◌++◌,
  append_assoc, append-nil, map, Option, none, some, arith, ◌==◌, nat_eq, string_eq, bytes_eq,
  if◌then◌else◌, Bool-cases, Option-cases, Bytes,
}
use m365plus.Base.Map.{Map, lookup, insert, lookup-insert}
use m365plus.ToolCalling.Ledger.{
  ToolEvidence, LedgerCall, LedgerResult, Building, call_signature, normalize_failure, seen,
  results_by_id, pending_evidence, completed_evidence, note_repeats, add_pending, add_completed,
  build_step, build_loop, empty_building, build_ledger,
}

abbrev pub Answered : Type 0
Answered = LedgerCall × Bytes

-- The calls of a history without a result, and those with one.
abbrev pub unanswered : Map String Bytes → List LedgerCall → List LedgerCall
unanswered results [] = []
unanswered results (c ∷ cs) = elim (lookup c.id results) [
  | none ↦ c ∷ unanswered results cs
  | some _ ↦ unanswered results cs
]

abbrev pub answered : Map String Bytes → List LedgerCall → List Answered
answered results [] = []
answered results (c ∷ cs) = elim (lookup c.id results) [
  | none ↦ answered results cs
  | some r ↦ (c, r) ∷ answered results cs
]

answered-none :
    (results : Map String Bytes) (c : LedgerCall) (cs : List LedgerCall)
    → lookup c.id results ≡ none
    → (answered results (c ∷ cs) ≡ answered results cs)
      × (unanswered results (c ∷ cs) ≡ c ∷ unanswered results cs)
answered-none results c cs e = (rw (e, answered), rw (e, unanswered))

answered-some :
    (results : Map String Bytes) (c : LedgerCall) (r : Bytes) (cs : List LedgerCall)
    → lookup c.id results ≡ some r
    → (answered results (c ∷ cs) ≡ (c, r) ∷ answered results cs)
      × (unanswered results (c ∷ cs) ≡ unanswered results cs)
answered-some results c r cs e = (rw (e, answered), rw (e, unanswered))

-- Whether a key of the list is one of those before it, or passes the test for those before the list.
abbrev pub has_repeat : (Bytes → Bool) → List Bytes → Bool
has_repeat before [] = false
has_repeat before (k ∷ ks) = before k || has_repeat (λ j. k == j || before j) ks

has_repeat-ext :
    (p q : Bytes → Bool) (ks : List Bytes)
    → ((k : Bytes) → p k ≡ q k)
    → has_repeat p ks ≡ has_repeat q ks
has_repeat-ext p q [] h = refl
has_repeat-ext p q (k ∷ ks) h = rw (h k) (
    ap (λ b. q k || b)
      (has_repeat-ext (λ j. k == j || p j) (λ j. k == j || q j) ks (λ j. rw (h j))))

seen-insert : (k j : Bytes) (m : Map Bytes Bool) → seen j (insert k true m) ≡ (k == j || seen j m)
seen-insert k j m = ground (arith, lookup-insert k j true m)

module _ (canon : Bytes → Option Bytes) (signal : Bytes → Bool) (lower : Bytes → Bytes) where
  abbrev pub evidence_of : Answered → ToolEvidence
  evidence_of (c, r) = completed_evidence canon signal lower c r

  abbrev pub signature_of : Answered → Bytes
  signature_of (c, r) = call_signature canon c.name c.arguments

  -- The signature of a failure with the call behind it; none for an answer that is no failure.
  abbrev pub failure_keys : List Answered → List Bytes
  failure_keys [] = []
  failure_keys ((c, r) ∷ more) =
      let rest = failure_keys more in
      if signal r
      then (signature_of (c, r) ++ 0 ∷ normalize_failure canon signal lower r) ∷ rest
      else rest

  note_repeats-parts :
      (c : LedgerCall) (r : Bytes) (b : Building)
      → let b' = note_repeats canon signal lower c r b in
        (b'.ledger.completed ≡ b.ledger.completed) × (b'.ledger.pending ≡ b.ledger.pending)
  unfolding note_repeats
  note_repeats-parts c r b = ground arith

  abbrev pub pending_step : LedgerCall → Building → Building
  pending_step c b = add_pending canon signal lower (pending_evidence c) b

  abbrev pub answered_step : LedgerCall → Bytes → Building → Building
  answered_step c r b =
      note_repeats canon signal lower c r
        (add_completed canon signal lower (completed_evidence canon signal lower c r) b)

  build_loop-none :
      (results : Map String Bytes) (c : LedgerCall) (cs : List LedgerCall) (b : Building)
      → lookup c.id results ≡ none
      → build_loop canon signal lower results (c ∷ cs) b
        ≡ build_loop canon signal lower results cs (pending_step c b)
  unfolding build_loop build_step
  build_loop-none results c cs b e = rw (e, build_step)

  build_loop-some :
      (results : Map String Bytes) (c : LedgerCall) (r : Bytes) (cs : List LedgerCall)
      (b : Building)
      → lookup c.id results ≡ some r
      → build_loop canon signal lower results (c ∷ cs) b
        ≡ build_loop canon signal lower results cs (answered_step c r b)
  unfolding build_loop build_step
  build_loop-some results c r cs b e = rw (e, build_step)

  build_loop-parts :
      (results : Map String Bytes) (cs : List LedgerCall) (b : Building)
      → let l = (build_loop canon signal lower results cs b).ledger in
        (l.completed ≡ b.ledger.completed ++ map evidence_of (answered results cs))
        × (l.pending ≡ b.ledger.pending ++ map pending_evidence (unanswered results cs))
  build_loop-parts results [] b = unfold build_loop in (sym (append-nil _), sym (append-nil _))
  build_loop-parts results (c ∷ cs) b = elim (Option-cases (lookup c.id results)) [
    | inl e ↦
        let ih = build_loop-parts results cs (pending_step c b) in
        let a = answered-none results c cs e in
        rw (build_loop-none results c cs b e)
          (rw (a.0, a.1) (ih.0, ih.1 ∙ append_assoc b.ledger.pending (pending_evidence c ∷ []) _))
    | inr (r, e) ↦
        let ih = build_loop-parts results cs (answered_step c r b) in
        let a = answered-some results c r cs e in
        let p = note_repeats-parts c r (add_completed canon signal lower (evidence_of (c, r)) b) in
        rw (build_loop-some results c r cs b e) (
          rw (a.0, a.1)
            (
              ih.0 ∙ rw p.0 (append_assoc b.ledger.completed (evidence_of (c, r) ∷ []) _),
              ih.1 ∙ rw p.1,
            ))
  ]

  note_repeats-flags :
      (c : LedgerCall) (r : Bytes) (b : Building)
      → let b' = note_repeats canon signal lower c r b in
        let k = signature_of (c, r) in
        let f = k ++ 0 ∷ normalize_failure canon signal lower r in
        (b'.ledger.repeated_call ≡ (b.ledger.repeated_call || seen k b.seen_call))
        × (b'.seen_call ≡ insert k true b.seen_call)
        × (b'.ledger.repeated_failure ≡ (
            if signal r
            then b.ledger.repeated_failure || seen f b.seen_failure
            else b.ledger.repeated_failure))
        × (b'.seen_failure ≡ (if signal r then insert f true b.seen_failure else b.seen_failure))
  unfolding note_repeats
  note_repeats-flags c r b = ground arith

  -- One more key in front of a test for a repeat.
  repeat-step :
      (flag : Bool) (k : Bytes) (ks : List Bytes) (m : Map Bytes Bool)
      → ((flag || seen k m) || has_repeat (λ j. seen j (insert k true m)) ks)
        ≡ (flag || has_repeat (λ j. seen j m) (k ∷ ks))
  repeat-step flag k ks m =
      rw
        (has_repeat-ext (λ j. seen j (insert k true m)) (λ j. k == j || seen j m) ks
          (λ j. seen-insert k j m))
        (ground arith)

  build_loop-repeated_call :
      (results : Map String Bytes) (cs : List LedgerCall) (b : Building)
      → (build_loop canon signal lower results cs b).ledger.repeated_call ≡ (
          b.ledger.repeated_call
          || has_repeat (λ k. seen k b.seen_call) (map signature_of (answered results cs)))
  build_loop-repeated_call results [] b = unfold build_loop in ground arith
  build_loop-repeated_call results (c ∷ cs) b = elim (Option-cases (lookup c.id results)) [
    | inl e ↦
        rw (build_loop-none results c cs b e, (answered-none results c cs e).0)
          (build_loop-repeated_call results cs (pending_step c b))
    | inr (r, e) ↦
        let n = note_repeats-flags c r (add_completed canon signal lower (evidence_of (c, r)) b) in
        rw (build_loop-some results c r cs b e, (answered-some results c r cs e).0)
          (build_loop-repeated_call results cs (answered_step c r b)
            ∙ rw (n.0, n.1)
                (repeat-step b.ledger.repeated_call (signature_of (c, r))
                  (map signature_of (answered results cs)) b.seen_call))
  ]

  build_loop-repeated_failure :
      (results : Map String Bytes) (cs : List LedgerCall) (b : Building)
      → (build_loop canon signal lower results cs b).ledger.repeated_failure ≡ (
          b.ledger.repeated_failure
          || has_repeat (λ k. seen k b.seen_failure) (failure_keys (answered results cs)))
  build_loop-repeated_failure results [] b = unfold build_loop in ground arith
  build_loop-repeated_failure results (c ∷ cs) b = elim (Option-cases (lookup c.id results)) [
    | inl e ↦
        rw (build_loop-none results c cs b e, (answered-none results c cs e).0)
          (build_loop-repeated_failure results cs (pending_step c b))
    | inr (r, e) ↦
        let n = note_repeats-flags c r (add_completed canon signal lower (evidence_of (c, r)) b) in
        rw (build_loop-some results c r cs b e, (answered-some results c r cs e).0)
          (build_loop-repeated_failure results cs (answered_step c r b)
            ∙ rw (n.2, n.3)
                (elim (Bool-cases (signal r)) [
                  | inl bad ↦ rw bad (
                      repeat-step b.ledger.repeated_failure
                        (signature_of (c, r) ++ 0 ∷ normalize_failure canon signal lower r)
                        (failure_keys (answered results cs)) b.seen_failure)
                  | inr good ↦ rw good
                ]))
  ]

  -- A ledger holds the evidence of every call of the history in order: under `Completed` those with
  -- a result of their id, under `Pending` the others. It reports a repeated call exactly if two
  -- answered calls have one signature, and a repeated failure exactly if two failures of one
  -- signature have the same normalized text.
  pub build_ledger_lem :
      (calls : List LedgerCall) (results : List LedgerResult) (rounds : ℕ)
      → let m = results_by_id results [] in
        let l = build_ledger canon signal lower calls results rounds in
        (l.completed ≡ map evidence_of (answered m calls))
        × (l.pending ≡ map pending_evidence (unanswered m calls))
        × (l.repeated_call ≡ has_repeat (λ _. false) (map signature_of (answered m calls)))
        × (l.repeated_failure ≡ has_repeat (λ _. false) (failure_keys (answered m calls)))
  unfolding build_ledger lookup
  build_ledger_lem calls results rounds =
      let m = results_by_id results [] in
      let b = empty_building canon signal lower rounds in
      let parts = build_loop-parts m calls b in
      (parts.0, parts.1, build_loop-repeated_call m calls b, build_loop-repeated_failure m calls b)
