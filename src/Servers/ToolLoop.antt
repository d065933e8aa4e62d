-- ===== src/Servers/ToolLoop.antt =====
-- pkg/servers/api.go: `runToolLoop`, in which the server runs the coding tools that it lends to the
-- model. What is outside is a Backend over a world W: `chat` is a turn of the Copilot client, none
-- on an error; `execute` runs a tool
-- on the arguments decoded, or on none, and encodes its result, none if that cannot be encoded;
-- `continued` renders the prompt of the next round, none if it cannot be encoded; `parse` is
-- `ParseSimulatedResponse` or its Anthropic variant with the declared tools; `note` is
-- `BuildRepairNote`; `canon` is as in the ledger. `executed` and `turns` are logs of what was asked
-- of the outside, which the code does not keep.
pub mod Ends
use m365plus.Base.{
  ℕ, zero, suc, ◌+◌, ◌-◌, String, Bool, true, false, not, ◌||◌, ◌&&◌, List, [], ◌∷◌, ◌++◌, Option,
  none, some, leb, ◌==◌, string_eq, bytes_eq, if◌then◌else◌, filterb, Bytes,
}
use m365plus.Base.Text.{codes}
use m365plus.Base.Map.{Map, lookup, insert}
use m365plus.ToolCalling.Ledger.{call_signature, seen}
use m365plus.ToolCalling.Simulated.{ToolCall, DroppedCall, SimulatedResult}

-- The fields of `payload.Message` that the loop writes.
pub record Message : Type 0 where
  pub role : String
  pub content : Bytes

pub record Turn : Type 0 where
  pub text : Bytes
  pub thinking : Bytes
  pub calls : List ToolCall
  pub finish_reason : Bytes
  pub conversation_id : String

pub record ToolLoopResult : Type 0 where
  pub text : Bytes
  pub thinking : Bytes
  pub tool_calls : List ToolCall
  pub finish_reason : Bytes
  pub conversation_id : String

pub data LoopError : Type 0 where
  chat_failed : LoopError
  iteration_limit : LoopError
  duplicate_call : Bytes → LoopError
  result_not_encoded : LoopError
  continuation_not_encoded : LoopError

pub data Outcome : Type 0 where
  answer : ToolLoopResult → Outcome
  error : LoopError → Outcome

pub record Backend {ℓ} (W : Type ℓ) : Type ℓ where
  pub chat : List Message → String → W → Option Turn × W
  pub execute : ToolCall → W → Option Bytes × W
  pub continued : List Message → Option (List Message)
  pub parse : Bytes → SimulatedResult
  pub note : List DroppedCall → Bytes

pub record Loop {ℓ} (W : Type ℓ) : Type ℓ where
  pub world : W
  pub executed : List Bytes
  pub turns : ℕ

-- The last message with a note behind it.
unfoldable pub with_note : Bytes → List Message → List Message
with_note text [] = []
with_note text (m ∷ []) = record m { content = m.content ++ (codes "\n\n" ++ text) } ∷ []
with_note text (m ∷ n ∷ rest) = m ∷ with_note text (n ∷ rest)

abbrev pub no_calls : List ToolCall → Bool
no_calls [] = true
no_calls (_ ∷ _) = false

abbrev pub none_dropped : List DroppedCall → Bool
none_dropped [] = true
none_dropped (_ ∷ _) = false

abbrev pub no_messages : List Message → Bool
no_messages [] = true
no_messages (_ ∷ _) = false

unfoldable pub format_simulated_tool_result : Bytes → Bytes → Bytes → Bytes
format_simulated_tool_result id name result =
    codes "[Tool Result for " ++ (name ++ (codes " (call_id: " ++ (id ++ (codes ")]\n" ++ result))))

-- `strings.Join(parts, "\n\n")`.
unfoldable pub join_parts : List Bytes → Bytes
join_parts [] = []
join_parts (p ∷ []) = p
join_parts (p ∷ q ∷ ps) = p ++ (codes "\n\n" ++ join_parts (q ∷ ps))

-- The results of the local calls with what they left, or an error.
pub data Ran {ℓ} (W : Type ℓ) : Type ℓ where
  ran : List Bytes → Map Bytes Bool → Loop W → Ran W
  stopped : LoopError → Loop W → Ran W

module _ {ℓ} {W : Type ℓ} where
  -- A result of a local call, in front of the others.
  abbrev pub with_part : Bytes → Ran W → Ran W
  with_part part (ran parts known s) = ran (part ∷ parts) known s
  with_part part (stopped e s) = stopped e s

  abbrev pub after_result : ToolCall → Option Bytes → Loop W → Ran W → Ran W
  after_result c none s rest = stopped result_not_encoded s
  after_result c (some encoded) s rest =
      with_part (format_simulated_tool_result c.id c.name encoded) rest

module _ {ℓ} {W : Type ℓ} (backend : Backend W) (canon : Bytes → Option Bytes) where
  -- A turn, counted.
  unfoldable pub ask : List Message → String → Loop W → Option Turn × Loop W
  ask messages conv_id s =
      let (turn, world) = backend.chat messages conv_id s.world in
      (turn, record s { world = world; turns = s.turns + 1 })

  abbrev pub retried : SimulatedResult → Option Turn → SimulatedResult
  retried sim none = sim
  retried sim (some turn) =
      if no_calls (backend.parse turn.text).tool_calls then sim else backend.parse turn.text

  unfoldable pub repair_simulated_tool_calls :
      List Message → SimulatedResult → Loop W → SimulatedResult × Loop W
  repair_simulated_tool_calls messages sim s =
      let (turn, after) = ask (with_note (backend.note sim.dropped_calls) messages) "" s in
      if not (no_calls sim.tool_calls) || none_dropped sim.dropped_calls || no_messages messages
      then (sim, s)
      else (retried sim turn, after)

  unfoldable pub run_local : List ToolCall → Map Bytes Bool → Loop W → Ran W
  run_local [] known s = ran [] known s
  run_local (c ∷ cs) known s =
      let key = call_signature canon c.name c.arguments in
      let (result, world) = backend.execute c s.world in
      let after : Loop W = record s { world = world; executed = key ∷ s.executed } in
      let rest = run_local cs (insert key true known) after in
      if seen key known then stopped (duplicate_call c.name) s else after_result c result after rest

  module _ (has_tools : Bool) (local : Bytes → Bool) (limit : ℕ) where
    abbrev pub plain_answer : Turn → String → ToolLoopResult
    plain_answer turn conv_id = record {
      text = turn.text;
      thinking = turn.thinking;
      tool_calls = turn.calls;
      finish_reason = turn.finish_reason;
      conversation_id = conv_id;
    }

    -- An answer in which the model calls no tool.
    abbrev pub text_answer : Turn → String → SimulatedResult → ToolLoopResult
    text_answer turn conv_id sim = record {
      text = if sim.has_payload then sim.content else turn.text;
      thinking = turn.thinking;
      tool_calls = [];
      finish_reason = if sim.has_payload then codes "stop" else turn.finish_reason;
      conversation_id = conv_id;
    }

    abbrev pub caller_calls : SimulatedResult → List ToolCall
    caller_calls sim = filterb (λ c. not (local c.name)) sim.tool_calls

    abbrev pub calls_answer : Turn → String → SimulatedResult → ToolLoopResult
    calls_answer turn conv_id sim = record {
      text = [];
      thinking = turn.thinking;
      tool_calls = caller_calls sim;
      finish_reason = codes "tool_calls";
      conversation_id = conv_id;
    }

    -- What a round comes to: an outcome, or the messages, the calls seen and the conversation of
    -- the next.
    pub data Round : Type ℓ where
      over : Outcome → Loop W → Round
      next : List Message → Map Bytes Bool → String → Loop W → Round

    abbrev pub continue_round : Option (List Message) → Map Bytes Bool → String → Loop W → Round
    continue_round none known conv_id s = over (error continuation_not_encoded) s
    continue_round (some messages) known conv_id s = next messages known conv_id s

    abbrev pub after_local : List Message → String → Ran W → Round
    after_local messages conv_id (stopped e s) = over (error e) s
    after_local messages conv_id (ran parts known s) =
        continue_round
          (backend.continued
            (messages ++ record { role = "user"; content = join_parts parts } ∷ []))
          known conv_id s

    abbrev pub act_on :
        ℕ → List Message → Map Bytes Bool → String → Turn → SimulatedResult → Loop W → Round
    act_on iteration messages known conv_id turn sim s =
        if not sim.has_payload || no_calls sim.tool_calls
        then over (answer (text_answer turn conv_id sim)) s
        else if not (no_calls (caller_calls sim))
        then over (answer (calls_answer turn conv_id sim)) s
        else if leb (limit - 1) iteration
        then over (error iteration_limit) s
        else after_local messages conv_id (run_local sim.tool_calls known s)

    abbrev pub after_turn :
        ℕ → List Message → Map Bytes Bool → String → Option Turn → Loop W → Round
    after_turn iteration messages known conv_id none s = over (error chat_failed) s
    after_turn iteration messages known conv_id (some turn) s =
        let current = if turn.conversation_id == "" then conv_id else turn.conversation_id in
        let (sim, repaired) = repair_simulated_tool_calls messages (backend.parse turn.text) s in
        if not has_tools
        then over (answer (plain_answer turn current)) s
        else act_on iteration messages known current turn sim repaired

    unfoldable pub round : ℕ → List Message → Map Bytes Bool → String → Loop W → Round
    round iteration messages known conv_id s =
        let (turn, asked) = ask messages conv_id s in
        after_turn iteration messages known conv_id turn asked

    abbrev pub then_rounds :
        (List Message → Map Bytes Bool → String → Loop W → Option Outcome × Loop W)
        → Round
        → Option Outcome × Loop W
    then_rounds go (over o s) = (some o, s)
    then_rounds go (next messages known conv_id s) = go messages known conv_id s

    -- The loop, for as many rounds as there is fuel; none if that runs out.
    unfoldable pub run_tool_loop :
        ℕ → ℕ → List Message → Map Bytes Bool → String → Loop W → Option Outcome × Loop W
    run_tool_loop zero iteration messages known conv_id s = (none, s)
    run_tool_loop (suc fuel) iteration messages known conv_id s =
        then_rounds (run_tool_loop fuel (iteration + 1)) (round iteration messages known conv_id s)
