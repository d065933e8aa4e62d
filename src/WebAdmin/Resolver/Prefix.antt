-- ===== src/WebAdmin/Resolver/Prefix.antt =====
-- pkg/webadmin/session_resolver.go: `contextPrefixLen` of a history and its continuation.
use m365plus.Base.{
  ◌<◌, true, List, [], ◌∷◌, ◌++◌, length, length-append, Option, none, some, ==_refl, ==_iff,
  string_eq, nat_eq, ltb→lt, ◌≡◌, refl, ap, arith,
}
use m365plus.WebAdmin.Resolver.Messages.{
  Message, ToolCall, tool_call_equal, calls_equal, tool_calls_equal, messages_equal, agrees,
  context_prefix_len,
}

pub context_prefix_len_nil : (hist : List Message) → context_prefix_len hist [] ≡ 0
unfolding context_prefix_len agrees
context_prefix_len_nil [] = refl
context_prefix_len_nil (h ∷ hist) = ground arith

calls_equal_refl : (xs : List ToolCall) → calls_equal xs xs ≡ true
unfolding calls_equal tool_call_equal
calls_equal_refl [] = refl
calls_equal_refl (x ∷ xs) = rw (==_refl x.name, ==_refl x.arguments) (calls_equal_refl xs)

tool_calls_equal_refl : (o : Option (List ToolCall)) → tool_calls_equal o o ≡ true
unfolding tool_calls_equal
tool_calls_equal_refl none = refl
tool_calls_equal_refl (some xs) = calls_equal_refl xs

messages_equal_refl : (m : Message) → messages_equal m m ≡ true
unfolding messages_equal
messages_equal_refl m = rw (==_refl m.role, ==_refl m.text) (tool_calls_equal_refl m.tool_calls)

agrees-append : (hist more : List Message) → agrees hist (hist ++ more) ≡ true
unfolding agrees
agrees-append [] more = refl
agrees-append (h ∷ hist) more = rw (messages_equal_refl h) (agrees-append hist more)

pub context_prefix_len-append :
    (hist more : List Message) → context_prefix_len hist (hist ++ more) ≡ length hist
unfolding context_prefix_len
context_prefix_len-append [] more = refl
context_prefix_len-append (h ∷ hist) more = ground (
  arith,
  agrees-append (h ∷ hist) more,
  length-append (h ∷ hist) more,
  ltb→lt (length ((h ∷ hist) ++ more)) (length (h ∷ hist)),
)

tool_call_equal_eq : (x y : ToolCall) → tool_call_equal x y ≡ true → x ≡ y
unfolding tool_call_equal
tool_call_equal_eq x y h = ground (arith, ==_iff x.name y.name, ==_iff x.arguments y.arguments)

calls_equal_eq : (xs ys : List ToolCall) → calls_equal xs ys ≡ true → xs ≡ ys
unfolding calls_equal
calls_equal_eq [] [] h = refl
calls_equal_eq [] (y ∷ ys) h = ground arith
calls_equal_eq (x ∷ xs) [] h = ground arith
calls_equal_eq (x ∷ xs) (y ∷ ys) h = ground (arith, tool_call_equal_eq x y, calls_equal_eq xs ys)

tool_calls_equal_eq : (a b : Option (List ToolCall)) → tool_calls_equal a b ≡ true → a ≡ b
unfolding tool_calls_equal
tool_calls_equal_eq none none h = refl
tool_calls_equal_eq none (some ys) h = ground arith
tool_calls_equal_eq (some xs) none h = ground arith
tool_calls_equal_eq (some xs) (some ys) h = ap some (calls_equal_eq xs ys h)

messages_equal_eq : (a b : Message) → messages_equal a b ≡ true → a ≡ b
unfolding messages_equal
messages_equal_eq a b h = ground (
  arith,
  ==_iff a.role b.role,
  ==_iff a.text b.text,
  tool_calls_equal_eq a.tool_calls b.tool_calls,
)

-- The messages are those of the history, in order, and any more.
abbrev pub Repeats : List Message → List Message → Type 0
Repeats hist msgs = (more : List Message) × (msgs ≡ hist ++ more)

agrees-Repeats : (hist msgs : List Message) → agrees hist msgs ≡ true → Repeats hist msgs
unfolding agrees
agrees-Repeats [] msgs h = (msgs, refl)
agrees-Repeats (x ∷ hist) [] h = ([], ground arith)
agrees-Repeats (x ∷ hist) (m ∷ msgs) h =
    let (more, e) = agrees-Repeats hist msgs (ground arith) in
    (more, ground (arith, messages_equal_eq x m, e))

pub context_prefix_len-Repeats :
    (hist msgs : List Message)
    → 0 < context_prefix_len hist msgs
    → Repeats hist msgs × (context_prefix_len hist msgs ≡ length hist)
unfolding context_prefix_len
context_prefix_len-Repeats hist msgs h = (agrees-Repeats hist msgs (ground arith), ground arith)
