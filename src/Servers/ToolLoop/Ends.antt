-- ===== src/Servers/ToolLoop/Ends.antt =====
-- pkg/servers/api.go: `runToolLoop` ends, and runs no call twice.
use m365plus.Base.{
  ℕ, zero, suc, ◌+◌, ◌-◌, ◌*◌, ◌≤◌, ◌<◌, max, ◌≡◌, refl, String, Bool, true, false, not, ◌||◌, ◌&&◌,
  List, [], ◌∷◌, ◌++◌, Option, none, some, leb, ◌==◌, bytes_eq, Bytes, on_both, on_each, arith,
}
use m365plus.Base.Map.{Map, insert, lookup-insert}
use m365plus.ToolCalling.Ledger.{call_signature, seen}
use m365plus.ToolCalling.Simulated.{ToolCall, SimulatedResult}
use m365plus.Servers.ToolLoop.{
  Message, Turn, Outcome, Backend, Loop, Ran, ran, stopped, no_calls, none_dropped, no_messages,
  ask, repair_simulated_tool_calls, with_part, after_result, run_local, Round, over, next,
  continue_round, after_local, after_turn, round, then_rounds, caller_calls, run_tool_loop,
  join_parts,
}

abbrev pub holds : Bytes → List Bytes → Bool
holds k [] = false
holds k (j ∷ js) = j == k || holds k js

abbrev pub distinct : List Bytes → Bool
distinct [] = true
distinct (k ∷ ks) = not (holds k ks) && distinct ks

seen-insert :
    (k key : Bytes) (known : Map Bytes Bool)
    → seen k (insert key true known) ≡ (key == k || seen k known)
seen-insert k key known = ground (arith, lookup-insert key k true known)

module _ {ℓ} {W : Type ℓ} where
  -- No call was run twice, and those that ran are known.
  abbrev pub Fresh : Map Bytes Bool → Loop W → Type 0
  Fresh known s =
      (distinct s.executed ≡ true)
      × ((k : Bytes) → seen k known ≡ false → holds k s.executed ≡ false)

  -- What local calls leave of that.
  abbrev Keeps : ℕ → Ran W → Type 0
  Keeps before (ran parts known s) = (s.turns ≡ before) × Fresh known s
  Keeps before (stopped e s) = (s.turns ≡ before) × (distinct s.executed ≡ true)

  with_part-Keeps :
      (before : ℕ) (part : Bytes) (r : Ran W) → Keeps before r → Keeps before (with_part part r)
  with_part-Keeps before part (ran parts known s) h = h
  with_part-Keeps before part (stopped e s) h = h

module _ {ℓ} {W : Type ℓ} (backend : Backend W) (canon : Bytes → Option Bytes) where
  after_result-Keeps :
      (before : ℕ) (c : ToolCall) (o : Option Bytes) (s : Loop W) (rest : Ran W)
      → s.turns ≡ before
      → distinct s.executed ≡ true
      → Keeps before rest
      → Keeps before (after_result c o s rest)
  after_result-Keeps before c none s rest e d h = (e, d)
  after_result-Keeps before c (some encoded) s rest e d h = with_part-Keeps before _ rest h

  run-Fresh :
      (key : Bytes) (known : Map Bytes Bool) (s : Loop W) (world : W)
      → seen key known ≡ false
      → Fresh known s
      → Fresh (insert key true known) (record s { world = world; executed = key ∷ s.executed })
  run-Fresh key known s world unknown (d, h) =
      (ground (arith, h key), λ k unseen. ground (arith, h k, seen-insert k key known))

  run_local-Keeps :
      (calls : List ToolCall) (known : Map Bytes Bool) (s : Loop W)
      → Fresh known s
      → Keeps s.turns (run_local backend canon calls known s)
  unfolding run_local
  run_local-Keeps [] known s h = (refl, h)
  run_local-Keeps (c ∷ cs) known s h =
      let key = call_signature canon c.name c.arguments in
      let (result, world) = backend.execute c s.world in
      let after : Loop W = record s { world = world; executed = key ∷ s.executed } in
      on_each (Keeps s.turns) (seen key known) (λ again. (refl, h.0))
        (λ unknown.
          after_result-Keeps s.turns c result after
            (run_local backend canon cs (insert key true known) after) refl
            (run-Fresh key known s world unknown h).0
            (run_local-Keeps cs (insert key true known) after
              (run-Fresh key known s world unknown h)))

  -- A turn asks once; a repair asks once more.
  repair_turns :
      (messages : List Message) (sim : SimulatedResult) (s : Loop W)
      → ((repair_simulated_tool_calls backend canon messages sim s).1.turns ≤ s.turns + 1)
        × ((repair_simulated_tool_calls backend canon messages sim s).1.executed ≡ s.executed)
  unfolding repair_simulated_tool_calls ask
  repair_turns messages sim s =
      on_both
        (λ (x : SimulatedResult × Loop W). (x.1.turns ≤ s.turns + 1) × (x.1.executed ≡ s.executed))
        (not (no_calls sim.tool_calls) || none_dropped sim.dropped_calls || no_messages messages)
        (omega arith, refl) (omega arith, refl)

  module _ (has_tools : Bool) (local : Bytes → Bool) (limit : ℕ) where
    -- A round costs no more than two turns, another follows only below the limit, and no call is
    -- run twice.
    abbrev IsFine : ℕ → ℕ → Round backend canon has_tools local limit → Type 0
    IsFine iteration bound (over o s) = (s.turns ≤ bound) × (distinct s.executed ≡ true)
    IsFine iteration bound (next messages known conv_id s) =
        (s.turns ≤ bound) × (iteration + 1 < limit) × Fresh known s

    after_local-IsFine :
        (iteration bound : ℕ) (messages : List Message) (conv_id : String) (r : Ran W) (turns : ℕ)
        → turns ≤ bound
        → iteration + 1 < limit
        → Keeps turns r
        → IsFine iteration bound
            (after_local backend canon has_tools local limit messages conv_id r)
    after_local-IsFine iteration bound messages conv_id (stopped e s) turns le lt (same, d) =
        (rw same le, d)
    after_local-IsFine iteration bound messages conv_id (ran parts known s) turns le lt (same, h) =
        go (
          backend.continued (messages ++ record { role = "user"; content = join_parts parts } ∷ []))
      where
        go :
            (o : Option (List Message))
            → IsFine iteration bound
                (continue_round backend canon has_tools local limit o known conv_id s)
        go none = (rw same le, h.0)
        go (some ms) = (rw same le, lt, h)

    after_turn-IsFine :
        (iteration bound : ℕ) (messages : List Message) (known : Map Bytes Bool) (conv_id : String)
        (turn : Option Turn) (s : Loop W)
        → s.turns + 1 ≤ bound
        → Fresh known s
        → IsFine iteration bound
            (after_turn backend canon has_tools local limit iteration messages known conv_id turn s)
    after_turn-IsFine iteration bound messages known conv_id none s le h = (omega (arith, le), h.0)
    after_turn-IsFine iteration bound messages known conv_id (some turn) s le h =
        let (sim, repaired) =
          repair_simulated_tool_calls backend canon messages (backend.parse turn.text) s in
        let (more, same) = repair_turns messages (backend.parse turn.text) s in
        let fits : repaired.turns ≤ bound = omega (arith, more, le) in
        let kept : Fresh known repaired = rw same h in
        on_both (IsFine iteration bound) (not has_tools) (omega (arith, le), h.0)
          (on_both (IsFine iteration bound) (not sim.has_payload || no_calls sim.tool_calls)
            (fits, kept.0)
            (on_both (IsFine iteration bound)
              (not (no_calls (caller_calls backend canon has_tools local limit sim))) (fits, kept.0)
              (on_each (IsFine iteration bound) (leb (limit - 1) iteration) (λ last. (fits, kept.0))
                (λ below.
                  after_local-IsFine iteration bound messages _
                    (run_local backend canon sim.tool_calls known repaired) repaired.turns fits
                    (ground arith) (run_local-Keeps sim.tool_calls known repaired kept)))))

    round-IsFine :
        (iteration : ℕ) (messages : List Message) (known : Map Bytes Bool) (conv_id : String)
        (s : Loop W)
        → Fresh known s
        → IsFine iteration
            (s.turns + 2)
            (round backend canon has_tools local limit iteration messages known conv_id s)
    unfolding round ask
    round-IsFine iteration messages known conv_id s h =
        after_turn-IsFine iteration (s.turns + 2) messages known conv_id _ _ (omega arith) h

    -- An outcome, within a bound on the turns, with no call run twice.
    abbrev pub EndsWithin : ℕ → Option Outcome × Loop W → Type 0
    EndsWithin bound r =
        (out : Outcome) × (r.0 ≡ some out) × (r.1.turns ≤ bound) × (distinct r.1.executed ≡ true)

    run_tool_loop-EndsWithin :
        (fuel iteration : ℕ) (messages : List Message) (known : Map Bytes Bool) (conv_id : String)
        (s : Loop W)
        → limit ≤ iteration + fuel
        → 1 ≤ fuel
        → Fresh known s
        → EndsWithin (s.turns + 2 * fuel) (
            run_tool_loop backend canon has_tools local limit fuel iteration messages known conv_id
              s)
    unfolding run_tool_loop
    run_tool_loop-EndsWithin zero iteration messages known conv_id s enough some_fuel h =
        absurd (omega (arith, some_fuel))
    run_tool_loop-EndsWithin (suc fuel) iteration messages known conv_id s enough some_fuel h =
        go (round backend canon has_tools local limit iteration messages known conv_id s)
          (round-IsFine iteration messages known conv_id s h)
          (λ ms seen_now id after more fresh_now.
            run_tool_loop-EndsWithin fuel (iteration + 1) ms seen_now id after
              (omega (arith, enough)) (omega (arith, enough, more)) fresh_now)
      where
        go :
            (r : Round backend canon has_tools local limit)
            → IsFine iteration (s.turns + 2) r
            → ((ms : List Message) (seen_now : Map Bytes Bool) (id : String) (after : Loop W)
                → iteration + 1 < limit
                → Fresh seen_now after
                → EndsWithin (after.turns + 2 * fuel) (
                    run_tool_loop backend canon has_tools local limit fuel
                      (iteration + 1)
                      ms
                      seen_now
                      id
                      after))
            → EndsWithin (s.turns + 2 * suc fuel) (
                then_rounds backend canon has_tools local limit
                  (run_tool_loop backend canon has_tools local limit fuel (iteration + 1))
                  r)
        go (over o after) (le, d) k = (o, refl, omega (arith, le), d)
        go (next ms seen_now id after) (le, lt, f) k =
            let (out, e, within, d) = k ms seen_now id after lt f in
            (out, e, omega (arith, within, le), d)

    -- The tool loop ends, whatever the model, the tools and the rendering of prompts answer: with as
    -- many rounds as the limit, and at least one, there is an outcome, the backend is asked at most
    -- twice for each round, and no call is run twice on the same arguments.
    pub run_tool_loop_ends :
        (messages : List Message) (conv_id : String) (world : W)
        → EndsWithin (2 * max 1 limit) (
            run_tool_loop backend canon has_tools local limit
              (max 1 limit)
              0
              messages
              []
              conv_id
              (record { world = world; executed = []; turns = 0 }))
    run_tool_loop_ends messages conv_id world =
        let (out, ended, within, once) =
          run_tool_loop-EndsWithin (max 1 limit) 0 messages [] conv_id
            (record { world = world; executed = []; turns = 0 }) (omega arith) (omega arith)
            (refl, λ k unseen. refl) in
        (out, ended, omega (arith, within), once)
