-- ===== src/ToolCalling/Ledger/Repeats.antt =====
-- pkg/toolcalling/ledger.go: which calls of a turn `FilterRepeated` drops.
use m365plus.Base.{
  ℕ, ◌≡◌, refl, sym, ap, ◌∙◌, inl, inr, Bool, true, false, not, List, [], ◌∷◌, map, Option, arith,
  leb, ◌==◌, nat_eq, bytes_eq, Bool-cases, length, ◌≤◌, filterb, length-filterb-le, Bytes,
}
use m365plus.ToolCalling.Ledger.{
  LedgerCall, LedgerResult, Ledger, call_signature, completed_count, is_settled, filter_repeated,
  results_by_id, build_ledger,
}
use m365plus.ToolCalling.Ledger.Build.{
  Answered, answered, evidence_of, signature_of, build_ledger_lem,
}

module _ {ℓ κ} {A : Type ℓ} {B : Type κ} where
  length-filterb-map :
      (p : B → Bool) (f : A → B) (xs : List A)
      → length (filterb p (map f xs)) ≡ length (filterb (λ x. p (f x)) xs)
  length-filterb-map p f [] = refl
  length-filterb-map p f (x ∷ xs) = ground (arith, length-filterb-map p f xs)

module _ {ℓ} {A : Type ℓ} where
  filterb-ext : (p q : A → Bool) (xs : List A) → ((x : A) → p x ≡ q x) → filterb p xs ≡ filterb q xs
  filterb-ext p q [] h = refl
  filterb-ext p q (x ∷ xs) h = rw (h x, filterb-ext p q xs h)

  filterb-all : (p : A → Bool) (xs : List A) → ((x : A) → p x ≡ true) → filterb p xs ≡ xs
  filterb-all p [] h = refl
  filterb-all p (x ∷ xs) h = rw (h x, filterb-all p xs h)

  filterb-none : (p : A → Bool) (xs : List A) → ((x : A) → p x ≡ false) → filterb p xs ≡ []
  filterb-none p [] h = refl
  filterb-none p (x ∷ xs) h = rw (h x) (filterb-none p xs h)

module _ (canon : Bytes → Option Bytes) (signal : Bytes → Bool) (lower : Bytes → Bytes) where
  -- How many answered calls have the signature of the call.
  abbrev pub times_answered : LedgerCall → List Answered → ℕ
  times_answered c done = length (
      filterb (λ a. signature_of canon signal lower a == call_signature canon c.name c.arguments)
        done)

  completed_count-times_answered :
      (c : LedgerCall) (l : Ledger) (done : List Answered)
      → l.completed ≡ map (evidence_of canon signal lower) done
      → completed_count canon l c.name c.arguments ≡ times_answered c done
  unfolding completed_count
  completed_count-times_answered c l done h =
      rw h (length-filterb-map _ (evidence_of canon signal lower) done)

  completed_count-le :
      (l : Ledger) (name arguments : Bytes)
      → completed_count canon l name arguments ≤ length l.completed
  unfolding completed_count
  completed_count-le l name arguments = length-filterb-le _ l.completed

  pub filter_repeated-settled :
      (l : Ledger) (calls : List LedgerCall)
      → filter_repeated canon l calls
        ≡ (filterb (λ c. not (is_settled canon l c)) calls, filterb (is_settled canon l) calls)
  unfolding filter_repeated
  filter_repeated-settled l calls = elim (Bool-cases (length l.completed == 0)) [
    | inl empty ↦
        let fresh : (c : LedgerCall) → is_settled canon l c ≡ false =
          λ c. ground (arith, completed_count-le l c.name c.arguments) in
        rw empty (λ i. (
          sym (filterb-all (λ c. not (is_settled canon l c)) calls (λ c. rw (fresh c))) i,
          sym (filterb-none (is_settled canon l) calls fresh) i,
        ))
    | inr some_done ↦ rw some_done
  ]

  -- Against the ledger of a history, a call of the new turn is dropped exactly if two or more
  -- answered calls of that history have its signature; the others are kept, both in order.
  pub filter_repeated-build_ledger :
      (calls new : List LedgerCall) (results : List LedgerResult) (rounds : ℕ)
      → let done = answered (results_by_id results []) calls in
        filter_repeated canon (build_ledger canon signal lower calls results rounds) new ≡ (
          filterb (λ c. not (leb 2 (times_answered c done))) new,
          filterb (λ c. leb 2 (times_answered c done)) new,
        )
  filter_repeated-build_ledger calls new results rounds =
      let l = build_ledger canon signal lower calls results rounds in
      let done = answered (results_by_id results []) calls in
      let completed = (build_ledger_lem canon signal lower calls results rounds).0 in
      let count : (c : LedgerCall) → is_settled canon l c ≡ leb 2 (times_answered c done) =
        λ c. ap (leb 2) (completed_count-times_answered c l done completed) in
      filter_repeated-settled l new ∙ (λ i. (
        filterb-ext (λ c. not (is_settled canon l c)) (λ c. not (leb 2 (times_answered c done))) new
            (λ c. ap not (count c)) i,
        filterb-ext (is_settled canon l) (λ c. leb 2 (times_answered c done)) new count i,
      ))
