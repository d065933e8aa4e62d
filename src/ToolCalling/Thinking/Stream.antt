-- ===== src/ToolCalling/Thinking/Stream.antt =====
-- The filter answers the same text however the stream is cut into chunks.
use m365plus.Base.{
  ◌≡◌, refl, sym, ap, ◌∙◌, inl, inr, Bool, true, false, not, ◌&&◌, List, [], ◌∷◌, ◌++◌,
  append_assoc, append-nil, arith, ◌==◌, nat_eq, Bool-cases, Bytes, bytes_beq,
}
use m365plus.Base.Text.{trim_right_newlines, has_prefix, trim_space}
use m365plus.ToolCalling.Thinking.{
  Filter, initial, newline, consume_line, Fed, emit, prepend, feed_from, feed, flush,
  filter_transport_thinking,
}

abbrev pub no_newline : Bytes → Bool
no_newline [] = true
no_newline (b ∷ bs) = not (b == newline) && no_newline bs

pub feed_from-no_newline :
    (fence : Bool) (line buf rest : Bytes)
    → no_newline buf ≡ true
    → feed_from fence line (buf ++ rest) ≡ feed_from fence (line ++ buf) rest
unfolding feed_from
feed_from-no_newline fence line [] rest h = rw append-nil
feed_from-no_newline fence line (b ∷ buf) rest h =
    let miss : (b == newline) ≡ false = ground arith in
    rw miss (feed_from-no_newline fence (line ++ b ∷ []) buf rest (ground arith) ∙ rw append_assoc)

-- What a second part gives after a first.
abbrev pub then_feed : Fed → Bytes → Fed
then_feed r rest = prepend r.out (feed_from r.state.in_fence r.state.pending rest)

feed_from-append :
    (fence : Bool) (line xs ys : Bytes)
    → feed_from fence line (xs ++ ys) ≡ then_feed (feed_from fence line xs) ys
unfolding feed_from
feed_from-append fence line [] ys = refl
feed_from-append fence line (x ∷ xs) ys = elim (Bool-cases (x == newline)) [
  | inl ends ↦
      let (fence', kept) = consume_line fence line in
      rw ends (ap (prepend (emit kept line)) (feed_from-append fence' [] xs ys) ∙ rw append_assoc)
  | inr goes ↦ rw goes (feed_from-append fence (line ++ x ∷ []) xs ys)
]

no_newline-append : (xs ys : Bytes) → no_newline (xs ++ ys) ≡ (no_newline xs && no_newline ys)
no_newline-append [] ys = refl
no_newline-append (x ∷ xs) ys = ground (arith, no_newline-append xs ys)

feed_from-pending :
    (fence : Bool) (line xs : Bytes)
    → no_newline line ≡ true
    → no_newline (feed_from fence line xs).state.pending ≡ true
unfolding feed_from
feed_from-pending fence line [] h = h
feed_from-pending fence line (x ∷ xs) h = elim (Bool-cases (x == newline)) [
  | inl ends ↦ rw ends (feed_from-pending (consume_line fence line).0 [] xs refl)
  | inr goes ↦ rw goes (
      feed_from-pending fence (line ++ x ∷ []) xs (ground (arith, no_newline-append line (x ∷ []))))
]

feed_from-pending_clean :
    (f : Filter) (chunk : Bytes)
    → no_newline f.pending ≡ true
    → feed f chunk ≡ feed_from f.in_fence f.pending chunk
unfolding feed
feed_from-pending_clean f chunk h = feed_from-no_newline f.in_fence [] f.pending chunk h

-- A stream that comes in chunks, fed one by one.
unfoldable pub feed_all : Filter → List Bytes → Fed
feed_all f [] = record { out = []; state = f }
feed_all f (c ∷ cs) = let r = feed f c in prepend r.out (feed_all r.state cs)

abbrev pub join : List Bytes → Bytes
join [] = []
join (c ∷ cs) = c ++ join cs

feed_all-join :
    (cs : List Bytes) (f : Filter)
    → no_newline f.pending ≡ true
    → feed_all f cs ≡ feed_from f.in_fence f.pending (join cs)
unfolding feed_all
feed_all-join [] f h = unfold feed_from in refl
feed_all-join (c ∷ cs) f h =
    let r = feed_from f.in_fence f.pending c in
    rw (feed_from-pending_clean f c h) (
      ap (prepend r.out) (feed_all-join cs r.state (feed_from-pending f.in_fence f.pending c h))
      ∙ sym (feed_from-append f.in_fence f.pending c (join cs)))

-- What a client of the stream has after the flush.
unfoldable pub streamed : List Bytes → Bytes
streamed cs = let r = feed_all initial cs in r.out ++ (flush r.state).out

filter-feed_from :
    (text : Bytes)
    → filter_transport_thinking text
      ≡ trim_right_newlines
          ((feed_from false [] text).out ++ (flush (feed_from false [] text).state).out)
unfolding filter_transport_thinking feed feed_from flush consume_line trim_right_newlines has_prefix
    trim_space bytes_beq
filter-feed_from [] = refl
filter-feed_from (c ∷ text) = refl

-- The text that is streamed in any number of chunks is the text that the batch filter answers for
-- the whole, but for the newlines at its end.
pub streamed-batch :
    (cs : List Bytes) → trim_right_newlines (streamed cs) ≡ filter_transport_thinking (join cs)
unfolding streamed
streamed-batch cs = rw (feed_all-join cs initial refl) (sym (filter-feed_from (join cs)))
