-- ===== src/ToolCalling/Thinking.antt =====
-- pkg/toolcalling/thinkingfilter.go: the filter that drops transport text from streamed thinking.
-- A Go loop that cuts the first line off the buffer, again and again, is one pass here: `line` is
-- what has been read of the line.
pub mod Stream
pub mod Lines
use m365plus.Base.{
  ℕ, Bool, true, false, not, ◌&&◌, ◌||◌, List, [], ◌∷◌, ◌++◌, String, ◌==◌, nat_eq, bytes_eq,
  if◌then◌else◌, Bytes,
}
use m365plus.Base.Text.{codes, trim_space, has_prefix, contains, to_lower, trim_right_newlines}

pub record Filter : Type 0 where
  pub in_fence : Bool
  pub pending : Bytes

abbrev pub initial : Filter
initial = record { in_fence = false; pending = [] }

abbrev pub newline : ℕ
newline = b'\n'

abbrev pub transport_thinking_markers : List String
transport_thinking_markers =
    "json format" ∷ "json object" ∷ "json block" ∷ "json code" ∷ "valid json" ∷ "json response"
    ∷ "json envelope" ∷ "single json" ∷ "in json" ∷ "as json" ∷ "envelope" ∷ "payload" ∷ "tool_use"
    ∷ "tool_call" ∷ "tool call" ∷ "stop_reason" ∷ "finish_reason" ∷ "simulat" ∷ "anthropic format"
    ∷ "anthropic messages" ∷ "anthropic response" ∷ "openai format" ∷ "chat.completion"
    ∷ "chat completion" ∷ "chatcmpl" ∷ "response object" ∷ "response format" ∷ "required format"
    ∷ "exact format" ∷ "same format" ∷ "code block" ∷ "assistant response" ∷ "assistant message"
    ∷ "content array" ∷ "content block" ∷ []

unfoldable pub contains_any : Bytes → List String → Bool
contains_any lower [] = false
contains_any lower (m ∷ ms) = contains lower (codes m) || contains_any lower ms

unfoldable pub is_transport_thinking_line : Bytes → Bool
unfolding contains_any contains has_prefix to_lower
is_transport_thinking_line line = contains_any (to_lower line) transport_thinking_markers

abbrev pub is_fence : Bytes → Bool
is_fence line = has_prefix (trim_space line) (codes "```")

-- `consumeLine`: the fence state after the line, and whether the line survives.
unfoldable pub consume_line : Bool → Bytes → Bool × Bool
consume_line fence line =
    if is_fence line
    then (not fence, false)
    else if fence || trim_space line == []
    then (fence, false)
    else (fence, not (is_transport_thinking_line (trim_space line)))

-- A call of `Feed`: the text that it answers, and the filter that it leaves.
pub record Fed : Type 0 where
  pub out : Bytes
  pub state : Filter

abbrev pub emit : Bool → Bytes → Bytes
emit kept line = if kept then line ++ newline ∷ [] else []

abbrev pub prepend : Bytes → Fed → Fed
prepend bs r = record r { out = bs ++ r.out }

unfoldable pub feed_from : Bool → Bytes → Bytes → Fed
feed_from fence line [] = record { out = []; state = record { in_fence = fence; pending = line } }
feed_from fence line (b ∷ bs) =
    let (fence', kept) = consume_line fence line in
    let ends = prepend (emit kept line) (feed_from fence' [] bs) in
    let goes = feed_from fence (line ++ b ∷ []) bs in if b == newline then ends else goes

unfoldable pub feed : Filter → Bytes → Fed
feed f chunk = feed_from f.in_fence [] (f.pending ++ chunk)

unfoldable pub flush : Filter → Fed
flush f =
    let (fence', kept) = consume_line f.in_fence f.pending in
    record {
      out = if kept then f.pending else [];
      state = record { in_fence = fence'; pending = [] };
    }

unfoldable pub filter_transport_thinking : Bytes → Bytes
filter_transport_thinking [] = []
filter_transport_thinking (c ∷ cs) =
    let fed = feed initial (c ∷ cs) in trim_right_newlines (fed.out ++ (flush fed.state).out)
