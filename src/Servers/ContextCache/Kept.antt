-- ===== src/Servers/ContextCache/Kept.antt =====
-- pkg/servers/api.go: what keeps the session of a key going: the calls on `ContextCache`.
use m365plus.Base.{
  ◌+◌, ◌≡◌, ◌≢◌, refl, ap, ◌∙◌, inl, inr, String, Bool, true, false, not, ◌&&◌, ◌||◌, List, [], ◌∷◌,
  Option, none, some, ◌==◌, ==_iff, on_both, string_eq, nat_eq, Bool-cases, arith,
}
use m365plus.Base.Map.{lookup}
use m365plus.Servers.ContextCache.{
  SessionState, FileSystem, ContextCache, keep_conversation, from_disk, get_session, set_session,
  set, delete_session, session_key, SessionTurn, started, session_turn_for,
  update_chat_stream_session,
}
use m365plus.Servers.ContextCache.Bounds.{
  Request, reads, sets, writes, drops, turns, ends, enables, step, run_requests,
}
use m365plus.Servers.ContextCache.OnDisk.{
  or_no_session, IsFaithful, Apart, Coherent, get_session-Reads, set_session-Writes,
  from_disk-remove, delete_session-Coherent,
}

-- Whether a session has this id and is past its first turn.
abbrev pub goes_on : String → SessionState → Bool
goes_on id st = st.client_session_id == id && not (st.turn_count == 0)

abbrev pub has_gone_on : String → Option SessionState → Bool
has_gone_on id none = false
has_gone_on id (some st) = goes_on id st

-- Whether a request neither drops the session of a key nor disables the cache, and is no half of a
-- call on that key.
abbrev pub spares : String → Request → Bool
spares k (writes key st) = not (key == k)
spares k (drops key) = not (key == k)
spares k (ends sid conv_id is_empty) = not is_empty || not (session_key sid == k)
spares k (enables on) = on
spares k (reads _) = true
spares k (sets _ _) = true
spares k (turns _ _) = true

abbrev pub all_spare : String → List Request → Bool
all_spare k [] = true
all_spare k (r ∷ rs) = spares k r && all_spare k rs

pub goes_on-keep_conversation :
    (id : String) (o : Option SessionState) (st : SessionState)
    → goes_on id (keep_conversation o st) ≡ goes_on id st
goes_on-keep_conversation id none st = refl
goes_on-keep_conversation id (some prev) st =
    on_both (λ (x : SessionState). goes_on id x ≡ goes_on id st) (st.conversation_id == "") refl
      refl

goes_on-or_no_session :
    (id : String) (o : Option SessionState)
    → has_gone_on id o ≡ true
    → goes_on id (or_no_session o) ≡ true
goes_on-or_no_session id none h = ground arith
goes_on-or_no_session id (some st) h = h

pub started_known :
    (id fresh : String) (st : SessionState) → id ≢ "" → goes_on id st ≡ true → started fresh st ≡ st
started_known id fresh st ne h =
    ground (arith, ==_iff st.client_session_id "", ==_iff st.client_session_id id)

pub started_named :
    (fresh : String) (st : SessionState) → fresh ≢ "" → (started fresh st).client_session_id ≢ ""
started_named fresh st ne = elim (Bool-cases (st.client_session_id == "")) [
  | inl e ↦ rw e ne
  | inr e ↦ rw e (λ p. ground (arith, ==_iff st.client_session_id ""))
]

module _ {ℓ} {D : Type ℓ} {F : Type 0} (files : FileSystem F D) (path : String → String)
    (encode : SessionState → F) (decode : F → Option SessionState)
    (law : IsFaithful files path encode decode) where
  -- No write or removal of a request concerns the file of the key under another key.
  abbrev pub AllApart : String → List Request → Type 0
  AllApart k [] = Unit {0}
  AllApart k (sets key _ ∷ rs) = Apart files path encode decode key k × AllApart k rs
  AllApart k (writes key _ ∷ rs) = Apart files path encode decode key k × AllApart k rs
  AllApart k (drops key ∷ rs) = Apart files path encode decode key k × AllApart k rs
  AllApart k (turns _ sid ∷ rs) = Apart files path encode decode (session_key sid) k × AllApart k rs
  AllApart k (ends sid _ _ ∷ rs) =
      Apart files path encode decode (session_key sid) k × AllApart k rs
  AllApart k (reads _ ∷ rs) = AllApart k rs
  AllApart k (enables _ ∷ rs) = AllApart k rs

  abbrev IsApart : String → String → Type 0
  IsApart key k = Apart files path encode decode key k

  abbrev pub stored : String → D → Option SessionState
  stored = from_disk files path encode decode

  -- The session of the key is on the disk, under this id and past its first turn.
  abbrev pub Continues : String → String → ContextCache D → Type 0
  Continues k id cc =
      Coherent files path encode decode k cc
      × (cc.enabled ≡ true)
      × (has_gone_on id (stored k cc.disk) ≡ true)

  get_session-Continues :
      (k id key : String) (cc : ContextCache D)
      → Continues k id cc
      → Continues k id (get_session files path encode decode key cc).1
  get_session-Continues k id key cc (co, on, h) =
      let (answer, after, same, still) =
        get_session-Reads files path encode decode k key cc co on in
      (after, still ∙ on, ap (λ d. has_gone_on id (stored k d)) same ∙ h)

  -- The answer of a read is the session's.
  pub get_session-goes_on :
      (k id key : String) (cc : ContextCache D)
      → Continues k id cc
      → (key == k) ≡ true
      → goes_on id (get_session files path encode decode key cc).0 ≡ true
  get_session-goes_on k id key cc (co, on, h) e =
      let (answer, _, _, _) = get_session-Reads files path encode decode k key cc co on in
      ap (goes_on id) (answer ((==_iff key k).0 e)) ∙ goes_on-or_no_session id (stored k cc.disk) h

  set_session-Continues :
      (k id key : String) (st : SessionState) (cc : ContextCache D)
      → IsApart key k
      → Continues k id cc
      → ((key == k) ≡ true → goes_on id st ≡ true)
      → Continues k id (set_session files path encode decode key st cc)
  set_session-Continues k id key st cc apart (co, on, h) g =
      let (after, written, still) =
        set_session-Writes files path encode decode law k key st cc apart co on in
      (
        after,
        still,
        elim (Bool-cases (key == k)) [
          | inl e ↦
              ap (has_gone_on id) written
              ∙ (rw e (goes_on-keep_conversation id (lookup key cc.mem) st ∙ g e))
          | inr e ↦ ap (has_gone_on id) written ∙ (rw e h)
        ],
      )

  set-Continues :
      (k id key conv_id : String) (cc : ContextCache D)
      → IsApart key k
      → Continues k id cc
      → Continues k id (set files path encode decode key conv_id cc)
  unfolding set
  set-Continues k id key conv_id cc apart c =
      let (prev, after) = get_session files path encode decode key cc in
      let got = get_session-Continues k id key cc c in
      on_both (Continues k id) (not cc.enabled) c (
        on_both (Continues k id) (prev.conversation_id == conv_id) got (
          set_session-Continues k id key (record prev { conversation_id = conv_id }) after apart got
            (get_session-goes_on k id key cc c)))

  delete_session-Continues :
      (k id key : String) (cc : ContextCache D)
      → IsApart key k
      → Continues k id cc
      → (key == k) ≡ false
      → Continues k id (delete_session files path encode decode key cc)
  delete_session-Continues k id key cc apart (co, on, h) other = (
    delete_session-Coherent files path encode decode law k key cc apart co,
    unfold delete_session in on,
    unfold delete_session in
        (ap (has_gone_on id) (from_disk-remove files path encode decode law k key cc.disk apart)
          ∙ (rw other h)),
  )

  session_turn_for-Continues :
      (k id fresh sid : String) (cc : ContextCache D)
      → id ≢ ""
      → IsApart (session_key sid) k
      → Continues k id cc
      → Continues k id (session_turn_for files path encode decode fresh sid cc).1
  unfolding session_turn_for
  session_turn_for-Continues k id fresh sid cc ne apart c =
      let key = session_key sid in
      let (found, after) = get_session files path encode decode key cc in
      let st = started fresh found in
      on_both (λ (r : Option SessionTurn × ContextCache D). Continues k id r.1) (sid == "") c
        (set_session-Continues k id key (record st { turn_count = st.turn_count + 1 }) after apart
          (get_session-Continues k id key cc c)
          (λ e. advanced id fresh found ne (get_session-goes_on k id key cc c e)))
    where
      advanced :
          (id fresh : String) (found : SessionState)
          → id ≢ ""
          → goes_on id found ≡ true
          → let st = started fresh found in
            goes_on id (record st { turn_count = st.turn_count + 1 }) ≡ true
      advanced id fresh found ne h = rw (started_known id fresh found ne h) (ground arith)

  update_chat_stream_session-Continues :
      (k id sid conv_id : String) (is_empty : Bool) (cc : ContextCache D)
      → IsApart (session_key sid) k
      → Continues k id cc
      → (not is_empty || not (session_key sid == k)) ≡ true
      → Continues k id (update_chat_stream_session files path encode decode sid conv_id is_empty cc)
  unfolding update_chat_stream_session
  update_chat_stream_session-Continues k id sid conv_id true cc apart c s =
      on_both (Continues k id) (sid == "") c
        (delete_session-Continues k id (session_key sid) cc apart c (ground arith))
  update_chat_stream_session-Continues k id sid conv_id false cc apart c s =
      let key = session_key sid in
      let (st, after) = get_session files path encode decode key cc in
      on_both (Continues k id) (sid == "") c (
        on_both (Continues k id) (not (conv_id == ""))
          (set_session-Continues k id key (record st { conversation_id = conv_id }) after apart
            (get_session-Continues k id key cc c) (get_session-goes_on k id key cc c))
          c)

  pub run_requests-Continues :
      (k id : String) (cc : ContextCache D) (rs : List Request)
      → id ≢ ""
      → AllApart k rs
      → Continues k id cc
      → all_spare k rs ≡ true
      → Continues k id (run_requests files path encode decode cc rs)
  unfolding run_requests step
  run_requests-Continues k id cc [] ne apart c s = c
  run_requests-Continues k id cc (reads key ∷ rs) ne apart c s =
      run_requests-Continues k id (get_session files path encode decode key cc).1 rs ne apart
        (get_session-Continues k id key cc c) (ground arith)
  run_requests-Continues k id cc (sets key conv_id ∷ rs) ne (own, apart) c s =
      run_requests-Continues k id (set files path encode decode key conv_id cc) rs ne apart
        (set-Continues k id key conv_id cc own c) (ground arith)
  run_requests-Continues k id cc (writes key st ∷ rs) ne (own, apart) c s =
      run_requests-Continues k id (set_session files path encode decode key st cc) rs ne apart
        (set_session-Continues k id key st cc own c (λ e. ground (arith, e))) (ground arith)
  run_requests-Continues k id cc (drops key ∷ rs) ne (own, apart) c s =
      run_requests-Continues k id (delete_session files path encode decode key cc) rs ne apart
        (delete_session-Continues k id key cc own c (ground arith)) (ground arith)
  run_requests-Continues k id cc (turns fresh sid ∷ rs) ne (own, apart) c s =
      run_requests-Continues k id (session_turn_for files path encode decode fresh sid cc).1 rs ne
        apart (session_turn_for-Continues k id fresh sid cc ne own c) (ground arith)
  run_requests-Continues k id cc (ends sid conv_id is_empty ∷ rs) ne (own, apart) c s =
      run_requests-Continues k id
        (update_chat_stream_session files path encode decode sid conv_id is_empty cc) rs ne apart
        (update_chat_stream_session-Continues k id sid conv_id is_empty cc own c (ground arith))
        (ground arith)
  run_requests-Continues k id cc (enables on ∷ rs) ne apart (co, was, g) s =
      run_requests-Continues k id (record cc { enabled = on }) rs ne apart (co, ground arith, g)
        (ground arith)
