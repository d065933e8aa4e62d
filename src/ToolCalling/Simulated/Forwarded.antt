-- ===== src/ToolCalling/Simulated/Forwarded.antt =====
-- pkg/toolcalling/simulated.go: what is known of every tool call that a parse forwards.
use m365plus.Base.{ℕ, ◌≡◌, ◌≢◌, Bool, true, false, List, [], ◌∷◌, Option, bytes_eq, Bytes}
use m365plus.Base.Text.{codes}
use m365plus.ToolCalling.Json.{Json}
use m365plus.ToolCalling.Contracts.{ToolContracts}
use m365plus.ToolCalling.Contracts.Accepted.{Meets}
use m365plus.ToolCalling.Simulated.{ToolCall, SimulatedResult}
use m365plus.ToolCalling.Simulated.Parse.{is_allowed}

abbrev pub All : (ToolCall → Type 0) → List ToolCall → Type 0
All P [] = Unit {0}
All P (c ∷ cs) = P c × All P cs

module _ (encode : Json → Bytes) (decode : Bytes → Option Json) (mint : ℕ → Bytes)
    (allowed : List Bytes) (contracts : ToolContracts) where
  -- A call of a declared tool, with arguments that were let through by its contract.
  abbrev pub IsSound : ToolCall → Type 0
  IsSound c =
      (is_allowed allowed c.name ≡ true)
      × ((given : Bytes) × Meets encode decode contracts c.name given c.arguments)

  -- Every call is sound, and they are what ends the turn.
  abbrev pub AllSound : SimulatedResult → Type 0
  AllSound result = All IsSound result.tool_calls

  -- Every call is sound; calls end the turn; and without `preserve` there is no content beside them.
  abbrev pub Answer : Bool → SimulatedResult → Type 0
  Answer preserve result =
      AllSound result
      × (result.tool_calls ≢ []
          → (result.finish_reason ≡ codes "tool_calls") × (preserve ≡ false → result.content ≡ []))
