-- ===== src/Servers/Messages/Settled.antt =====
-- pkg/servers/api.go: what `dropSettledToolCalls` leaves of a turn.
use m365plus.Base.{
  ◌≡◌, ◌≢◌, refl, ap, sym, ◌⊎◌, inl, inr, String, Bool, true, false, not, ◌||◌, List, [], ◌∷◌,
  Option, ◌==◌, bytes_eq, if◌then◌else◌, filterb, Bytes, Bool-cases, on_each, arith,
}
use m365plus.Base.Text.{codes, trim_space}
use m365plus.ToolCalling.Ledger.{LedgerCall, Ledger, is_settled}
use m365plus.ToolCalling.Ledger.Repeats.{filter_repeated-settled}
use m365plus.Servers.Messages.{
  Parsed, no_ledger_calls, tool_choice_forces_a_call, without_settled, drop_settled_tool_calls,
}

filterb-keeps :
    (p : LedgerCall → Bool) (cs : List LedgerCall)
    → no_ledger_calls (filterb p cs) ≡ true
    → filterb (λ c. not (p c)) cs ≡ cs
filterb-keeps p [] h = refl
filterb-keeps p (c ∷ cs) h = elim (Bool-cases (p c)) [
  | inl e ↦ absurd (ground arith)
  | inr e ↦ rw e (ap (◌∷◌ c) (filterb-keeps p cs (ground arith)))
]

filterb-no_calls :
    (p : LedgerCall → Bool) (cs : List LedgerCall) → no_ledger_calls cs ≡ true → filterb p cs ≡ cs
filterb-no_calls p [] h = refl
filterb-no_calls p (c ∷ cs) h = absurd (ground arith)

module _ (canon : Bytes → Option Bytes) (notice : Bytes) where
  -- What is left of a parse.
  abbrev pub Left : Ledger → Parsed → Parsed → Type 0
  Left ledger p after =
      (after.tool_calls ≡ filterb (λ c. not (is_settled canon ledger c)) p.tool_calls)
      × (p.tool_calls ≢ []
          → after.tool_calls ≡ []
          → (after.finish_reason ≡ codes "stop") × ((trim_space after.content == []) ≡ false))

  unchanged-Left :
      (ledger : Ledger) (p : Parsed)
      → filterb (λ c. not (is_settled canon ledger c)) p.tool_calls ≡ p.tool_calls
      → Left ledger p p
  unchanged-Left ledger p e = (sym e, λ some_calls empty. absurd (some_calls empty))

  without_settled-Left :
      (ledger : Ledger) (p : Parsed)
      → (trim_space notice == []) ≡ false
      → Left ledger p (
          without_settled canon notice
            (filterb (λ c. not (is_settled canon ledger c)) p.tool_calls)
            p)
  without_settled-Left ledger p said =
      (refl, λ some_calls empty. rw empty (refl, content (Bool-cases (trim_space p.content == []))))
    where
      content :
          ((trim_space p.content == []) ≡ true) ⊎ ((trim_space p.content == []) ≡ false)
          → (trim_space (if trim_space p.content == [] then notice else p.content) == []) ≡ false
      content (inl e) = rw e said
      content (inr e) = rw e e

  -- Unless `tool_choice` forces a call, exactly the calls that are not settled are left, in order;
  -- and where that leaves none of some, the turn ends with "stop" and an answer that is not blank,
  -- if the notice is not.
  pub drop_settled_tool_calls-Left :
      (ledger : Ledger) (choice : String) (p : Parsed)
      → (trim_space notice == []) ≡ false
      → tool_choice_forces_a_call choice ≡ false
      → Left ledger p (drop_settled_tool_calls canon notice ledger choice p)
  unfolding drop_settled_tool_calls
  drop_settled_tool_calls-Left ledger choice p said free =
      let settled : LedgerCall → Bool = is_settled canon ledger in
      let kept = filterb (λ c. not (settled c)) p.tool_calls in
      let both = filter_repeated-settled canon (λ _. false) (λ t. t) ledger p.tool_calls in
      rw (both, free)
        (on_each (Left ledger p) (no_ledger_calls p.tool_calls || false)
          (λ empty.
            unchanged-Left ledger p
              (filterb-no_calls (λ c. not (settled c)) p.tool_calls (ground arith)))
          (λ filled.
            on_each (Left ledger p) (no_ledger_calls (filterb settled p.tool_calls))
              (λ fresh. unchanged-Left ledger p (filterb-keeps settled p.tool_calls fresh))
              (λ repeats. without_settled-Left ledger p said)))
