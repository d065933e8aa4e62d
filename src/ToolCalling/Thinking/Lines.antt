-- ===== src/ToolCalling/Thinking/Lines.antt =====
-- Which lines survive the filter.
use m365plus.Base.{
  ◌≡◌, refl, ap, ◌∙◌, Bool, true, not, List, [], ◌∷◌, ◌++◌, append_assoc, arith, ◌==◌, nat_eq,
  bytes_eq, if◌then◌else◌, Bytes,
}
use m365plus.Base.Text.{trim_space}
use m365plus.ToolCalling.Thinking.{
  newline, is_fence, is_transport_thinking_line, consume_line, emit, prepend, feed_from, feed,
}
use m365plus.ToolCalling.Thinking.Stream.{no_newline, feed_from-no_newline}

-- A text of whole lines.
abbrev pub unlines : List Bytes → Bytes
unlines [] = []
unlines (l ∷ ls) = l ++ newline ∷ unlines ls

abbrev pub AllLines : List Bytes → Type 0
AllLines [] = Unit {0}
AllLines (l ∷ ls) = (no_newline l ≡ true) × AllLines ls

-- The lines that a reader keeps: outside fences, not blank, and with no word about the transport.
-- A line that opens or closes a fence is dropped too.
abbrev pub survivors : Bool → List Bytes → List Bytes
survivors fence [] = []
survivors fence (l ∷ ls) =
    let toggled = survivors (not fence) ls in
    let dropped = survivors fence ls in
    if is_fence l
    then toggled
    else if fence
    then dropped
    else if trim_space l == []
    then dropped
    else if is_transport_thinking_line (trim_space l)
    then dropped
    else l ∷ dropped

feed_from-line :
    (fence : Bool) (l rest : Bytes)
    → no_newline l ≡ true
    → feed_from fence [] (l ++ newline ∷ rest)
      ≡ prepend (emit (consume_line fence l).1 l) (feed_from (consume_line fence l).0 [] rest)
unfolding feed_from
feed_from-line fence l rest h = feed_from-no_newline fence [] l (newline ∷ rest) h

emit-survivors :
    (fence : Bool) (l : Bytes) (ls : List Bytes)
    → emit (consume_line fence l).1 l ++ unlines (survivors (consume_line fence l).0 ls)
      ≡ unlines (survivors fence (l ∷ ls))
unfolding consume_line
emit-survivors fence l ls =
    ground (arith, append_assoc l (newline ∷ []) (unlines (survivors fence ls)))

feed_from-survivors :
    (fence : Bool) (ls : List Bytes)
    → AllLines ls
    → (feed_from fence [] (unlines ls)).out ≡ unlines (survivors fence ls)
feed_from-survivors fence [] h = unfold feed_from in refl
feed_from-survivors fence (l ∷ ls) h = rw (feed_from-line fence l (unlines ls) h.0) (
    ap (◌++◌ (emit (consume_line fence l).1 l))
      (feed_from-survivors (consume_line fence l).0 ls h.1)
    ∙ emit-survivors fence l ls)

-- On whole lines the filter answers the lines that survive, whole and in order, and nothing else.
pub feed-survivors :
    (fence : Bool) (ls : List Bytes)
    → AllLines ls
    → (feed (record { in_fence = fence; pending = [] }) (unlines ls)).out
      ≡ unlines (survivors fence ls)
unfolding feed
feed-survivors fence ls h = feed_from-survivors fence ls h
