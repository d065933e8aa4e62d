-- ===== src/WebAdmin/Resolver/Messages.antt =====
-- pkg/webadmin/session_resolver.go: when a stored history is a prefix of a request's messages.
use m365plus.Base.{
  ℕ, String, Bool, true, false, ◌||◌, List, [], ◌∷◌, Option, none, some, ◌==◌, string_eq, nat_eq,
  if◌then◌else◌, ltb, length,
}

-- `function.name` and `function.arguments` of a tool call, "" where the map has none; the id is
-- not compared.
pub record ToolCall : Type 0 where
  pub name : String
  pub arguments : String

-- `text` is `contentToString` of the content; `tool_calls` is `none` for a nil slice.
pub record Message : Type 0 where
  pub role : String
  pub text : String
  pub tool_calls : Option (List ToolCall)

unfoldable pub tool_call_equal : ToolCall → ToolCall → Bool
tool_call_equal x y = if x.name == y.name then x.arguments == y.arguments else false

unfoldable pub calls_equal : List ToolCall → List ToolCall → Bool
calls_equal [] [] = true
calls_equal [] (_ ∷ _) = false
calls_equal (_ ∷ _) [] = false
calls_equal (x ∷ xs) (y ∷ ys) =
    let rest = calls_equal xs ys in if tool_call_equal x y then rest else false

unfoldable pub tool_calls_equal : Option (List ToolCall) → Option (List ToolCall) → Bool
tool_calls_equal none none = true
tool_calls_equal none (some _) = false
tool_calls_equal (some _) none = false
tool_calls_equal (some xs) (some ys) = calls_equal xs ys

unfoldable pub messages_equal : Message → Message → Bool
messages_equal a b =
    if a.role == b.role
    then (if a.text == b.text then tool_calls_equal a.tool_calls b.tool_calls else false)
    else false

-- The loop of `contextPrefixLen`: each message of the history against the one of its place.
unfoldable pub agrees : List Message → List Message → Bool
agrees [] msgs = true
agrees (h ∷ hist) [] = false
agrees (h ∷ hist) (m ∷ msgs) =
    let rest = agrees hist msgs in if messages_equal h m then rest else false

unfoldable pub context_prefix_len : List Message → List Message → ℕ
context_prefix_len hist msgs =
    if length hist == 0 || ltb (length msgs) (length hist)
    then 0
    else if agrees hist msgs
    then length hist
    else 0
