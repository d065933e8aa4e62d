-- ===== src/Client/Frames/Chunks.antt =====
-- The frames of a stream do not depend on where the stream is cut into messages.
use m365plus.Base.{
  ℕ, suc, ◌+◌, ◌≤◌, ◌≡◌, refl, sym, ap, subst, ◌∙◌, inl, inr, Bool, true, false, not, ◌&&◌, List,
  [], ◌∷◌, ◌++◌, append_assoc, append-nil, Option, arith, ltb, ◌==◌, nat_eq, Bool-cases,
  Option-cases, length, length-append, Bytes,
}
use m365plus.Base.Text.{trim_space}
use m365plus.Client.Frames.Machine.{
  Drained, frames, bad_record, overflow, delimiter, max_buffered, is_blank, prepend, close_record,
  drain, feed,
}

abbrev pub join : List Bytes → Bytes
join [] = []
join (c ∷ cs) = c ++ join cs

abbrev pub no_delimiter : Bytes → Bool
no_delimiter [] = true
no_delimiter (b ∷ bs) = not (b == delimiter) && no_delimiter bs

module _ {F : Type 0} (decode : Bytes → Option F) where
  -- A run of bytes with no delimiter only grows the record.
  drain-no_delimiter :
      (cur buf rest : Bytes)
      → no_delimiter buf ≡ true
      → drain decode cur (buf ++ rest) ≡ drain decode (cur ++ buf) rest
  unfolding drain
  drain-no_delimiter cur [] rest h = rw append-nil
  drain-no_delimiter cur (b ∷ buf) rest h =
      let step = drain-no_delimiter (cur ++ b ∷ []) buf rest (ground arith) in
      let miss : (b == delimiter) ≡ false = ground arith in rw miss (step ∙ rw append_assoc)

  -- What follows a first part that is drained without an error.
  abbrev then_drain : Drained F → Bytes → Drained F
  then_drain (frames fs b) rest = prepend fs (drain decode b rest)
  then_drain (bad_record b) rest = bad_record (b ++ rest)
  then_drain overflow rest = overflow

  prepend-nil : (d : Drained F) → prepend [] d ≡ d
  prepend-nil (frames fs b) = refl
  prepend-nil (bad_record b) = refl
  prepend-nil overflow = refl

  prepend-prepend :
      (fs gs : List F) (d : Drained F) → prepend fs (prepend gs d) ≡ prepend (fs ++ gs) d
  prepend-prepend fs gs (frames hs b) = rw append_assoc
  prepend-prepend fs gs (bad_record b) = refl
  prepend-prepend fs gs overflow = refl

  then_drain-prepend :
      (fs : List F) (d : Drained F) (ys : Bytes)
      → then_drain (prepend fs d) ys ≡ prepend fs (then_drain d ys)
  then_drain-prepend fs (frames gs b) ys = sym (prepend-prepend fs gs (drain decode b ys))
  then_drain-prepend fs (bad_record b) ys = refl
  then_drain-prepend fs overflow ys = refl

  close_record-append :
      (cur rest ys : Bytes) (after : Drained F)
      → then_drain (close_record decode cur rest after) ys
        ≡ close_record decode cur (rest ++ ys) (then_drain after ys)
  unfolding close_record
  close_record-append cur rest ys after = elim (Bool-cases (is_blank (trim_space cur))) [
    | inl blank ↦ rw blank
    | inr record_there ↦ rw record_there (elim (Option-cases (decode (trim_space cur))) [
      | inl bad ↦ rw bad
      | inr (f, good) ↦ rw good (then_drain-prepend (f ∷ []) after ys)
    ])
  ]

  drain-append :
      (cur xs ys : Bytes) → drain decode cur (xs ++ ys) ≡ then_drain (drain decode cur xs) ys
  unfolding drain
  drain-append cur [] ys = sym (prepend-nil (drain decode cur ys))
  drain-append cur (x ∷ xs) ys = elim (Bool-cases (x == delimiter)) [
    | inl ends ↦ rw ends (
        ap (close_record decode cur (xs ++ ys)) (drain-append [] xs ys)
        ∙ sym (close_record-append cur xs ys (drain decode [] xs)))
    | inr goes ↦ rw goes (drain-append (cur ++ x ∷ []) xs ys)
  ]

  -- What a drain leaves in the buffer holds no delimiter.
  abbrev Clean : Drained F → Type 0
  Clean (frames fs b) = no_delimiter b ≡ true
  Clean _ = Unit {0}

  no_delimiter-append :
      (xs ys : Bytes) → no_delimiter (xs ++ ys) ≡ (no_delimiter xs && no_delimiter ys)
  no_delimiter-append [] ys = refl
  no_delimiter-append (x ∷ xs) ys = ground (arith, no_delimiter-append xs ys)

  prepend-Clean : (fs : List F) (d : Drained F) → Clean d → Clean (prepend fs d)
  prepend-Clean fs (frames gs b) h = h
  prepend-Clean fs (bad_record b) h = tt
  prepend-Clean fs overflow h = tt

  close_record-Clean :
      (cur rest : Bytes) (after : Drained F)
      → Clean after
      → Clean (close_record decode cur rest after)
  unfolding close_record
  close_record-Clean cur rest after h = elim (Bool-cases (is_blank (trim_space cur))) [
    | inl blank ↦ rw blank h
    | inr record_there ↦ rw record_there (elim (Option-cases (decode (trim_space cur))) [
      | inl bad ↦ rw bad tt
      | inr (f, good) ↦ rw good (prepend-Clean (f ∷ []) after h)
    ])
  ]

  drain-Clean : (cur bs : Bytes) → no_delimiter cur ≡ true → Clean (drain decode cur bs)
  unfolding drain
  drain-Clean cur [] h = h
  drain-Clean cur (b ∷ bs) h = elim (Bool-cases (b == delimiter)) [
    | inl ends ↦ rw ends (close_record-Clean cur bs _ (drain-Clean [] bs refl))
    | inr goes ↦
        rw goes (drain-Clean (cur ++ b ∷ []) bs (ground (arith, no_delimiter-append cur (b ∷ []))))
  ]

  -- After a call of `Feed` that answers frames, no complete record is left in the buffer.
  pub feed-Clean : (buffer chunk : Bytes) → Clean (feed decode buffer chunk)
  unfolding feed
  feed-Clean buffer chunk = elim (Bool-cases (ltb max_buffered (length (buffer ++ chunk)))) [
    | inl big ↦ rw big tt
    | inr fits ↦ rw fits (drain-Clean [] (buffer ++ chunk) refl)
  ]

  -- The buffer left is no longer than what was there to read.
  abbrev Within : ℕ → Drained F → Type 0
  Within n (frames fs b) = length b ≤ n
  Within n _ = Unit {0}

  prepend-Within : (n : ℕ) (fs : List F) (d : Drained F) → Within n d → Within n (prepend fs d)
  prepend-Within n fs (frames gs b) h = h
  prepend-Within n fs (bad_record b) h = tt
  prepend-Within n fs overflow h = tt

  Within-mono : (m n : ℕ) (d : Drained F) → m ≤ n → Within m d → Within n d
  Within-mono m n (frames gs b) le h = omega arith
  Within-mono m n (bad_record b) le h = tt
  Within-mono m n overflow le h = tt

  close_record-Within :
      (n : ℕ) (cur rest : Bytes) (after : Drained F)
      → Within n after
      → Within n (close_record decode cur rest after)
  unfolding close_record
  close_record-Within n cur rest after h = elim (Bool-cases (is_blank (trim_space cur))) [
    | inl blank ↦ rw blank h
    | inr record_there ↦ rw record_there (elim (Option-cases (decode (trim_space cur))) [
      | inl bad ↦ rw bad tt
      | inr (f, good) ↦ rw good (prepend-Within n (f ∷ []) after h)
    ])
  ]

  drain-Within : (cur bs : Bytes) → Within (length cur + length bs) (drain decode cur bs)
  unfolding drain
  drain-Within cur [] = omega arith
  drain-Within cur (b ∷ bs) = elim (Bool-cases (b == delimiter)) [
    | inl ends ↦ rw ends (
        close_record-Within (length cur + suc (length bs)) cur bs _
          (Within-mono (0 + length bs) _ _ (omega arith) (drain-Within [] bs)))
    | inr goes ↦ rw goes (
        Within-mono _ _ _ (omega (arith, length-append cur (b ∷ [])))
          (drain-Within (cur ++ b ∷ []) bs))
  ]

  -- A stream that comes in messages, fed one by one.
  unfoldable pub feed_all : Bytes → List Bytes → Drained F
  feed_all buffer [] = frames [] buffer
  feed_all buffer (c ∷ cs) = elim (feed decode buffer c) [
    | frames fs b ↦ prepend fs (feed_all b cs)
    | bad_record b ↦ bad_record b
    | overflow ↦ overflow
  ]

  abbrev pub IsFrames : Drained F → Type 0
  IsFrames (frames fs b) = Unit {0}
  IsFrames _ = ⊥

  IsFrames-prepend : (fs : List F) (d : Drained F) → IsFrames (prepend fs d) → IsFrames d
  IsFrames-prepend fs (frames gs b) h = tt
  IsFrames-prepend fs (bad_record b) h = h
  IsFrames-prepend fs overflow h = h

  feed-drain :
      (buffer chunk : Bytes)
      → no_delimiter buffer ≡ true
      → length buffer + length chunk ≤ max_buffered
      → feed decode buffer chunk ≡ drain decode buffer chunk
  unfolding feed
  feed-drain buffer chunk clean fits =
      let small : ltb max_buffered (length (buffer ++ chunk)) ≡ false =
        ground (arith, length-append buffer chunk) in
      rw small (drain-no_delimiter [] buffer chunk clean)

  -- One message of the stream, whatever it gives.
  feed_all-step :
      (c rest : Bytes) (cs : List Bytes) (d : Drained F) (buffer : Bytes)
      → feed decode buffer c ≡ d
      → IsFrames (then_drain d rest)
      → ((fs : List F) (b : Bytes) → d ≡ frames fs b → feed_all b cs ≡ drain decode b rest)
      → feed_all buffer (c ∷ cs) ≡ then_drain d rest
  unfolding feed_all
  feed_all-step c rest cs (frames fs b) buffer e h next =
      rw (e, feed_all) (ap (prepend fs) (next fs b refl))
  feed_all-step c rest cs (bad_record b) buffer e h next = absurd h
  feed_all-step c rest cs overflow buffer e h next = absurd h

  feed_all-drain :
      (cs : List Bytes) (buffer : Bytes)
      → no_delimiter buffer ≡ true
      → length buffer + length (join cs) ≤ max_buffered
      → IsFrames (drain decode buffer (join cs))
      → feed_all buffer cs ≡ drain decode buffer (join cs)
  unfolding feed_all
  feed_all-drain [] buffer clean fits good = unfold drain in refl
  feed_all-drain (c ∷ cs) buffer clean fits good =
      let whole = drain-append buffer c (join cs) in
      let len = length-append c (join cs) in
      feed_all-step c (join cs) cs (drain decode buffer c) buffer
        (feed-drain buffer c clean (omega arith)) (subst IsFrames whole good)
        (λ fs b e.
          let kept : no_delimiter b ≡ true = subst Clean e (drain-Clean buffer c clean) in
          let short : length b ≤ length buffer + length c =
            subst (Within (length buffer + length c)) e (drain-Within buffer c) in
          feed_all-drain cs b kept (omega arith) (
            IsFrames-prepend fs (drain decode b (join cs))
              (subst (λ d. IsFrames (then_drain d (join cs))) e (subst IsFrames whole good))))
      ∙ sym whole

  -- A stream that fits the buffer and holds no bad record gives the same frames, in order, and
  -- leaves the same rest, however it is cut into messages.
  pub feed_all-feed :
      (cs : List Bytes) (buffer : Bytes)
      → no_delimiter buffer ≡ true
      → length buffer + length (join cs) ≤ max_buffered
      → IsFrames (feed decode buffer (join cs))
      → feed_all buffer cs ≡ feed decode buffer (join cs)
  feed_all-feed cs buffer clean fits good =
      let same = feed-drain buffer (join cs) clean fits in
      feed_all-drain cs buffer clean fits (subst IsFrames same good) ∙ sym same
