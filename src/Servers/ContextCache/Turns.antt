-- ===== src/Servers/ContextCache/Turns.antt =====
-- pkg/servers/api.go: `sessionTurnFor` over the life of a session.
use m365plus.Base.{
  ◌+◌, ◌≡◌, ◌≢◌, refl, ap, ◌∙◌, inl, inr, String, true, false, List, Option, some, ◌==◌, ==_iff,
  ==_refl, string_eq, nat_eq, Bool-cases, arith,
}
use m365plus.Base.Map.{lookup}
use m365plus.Servers.ContextCache.{
  SessionState, FileSystem, ContextCache, get_session, session_key, SessionTurn, started, turn_of,
  session_turn_for,
}
use m365plus.Servers.ContextCache.Bounds.{Request, run_requests}
use m365plus.Servers.ContextCache.OnDisk.{
  IsFaithful, Coherent, get_session-Reads, set_session-Writes,
}
use m365plus.Servers.ContextCache.Kept.{
  goes_on, has_gone_on, all_spare, goes_on-keep_conversation, started_known, started_named,
  AllApart, Continues, get_session-goes_on, run_requests-Continues,
}

module _ {ℓ} {D : Type ℓ} {F : Type 0} (files : FileSystem F D) (path : String → String)
    (encode : SessionState → F) (decode : F → Option SessionState)
    (law : IsFaithful files path encode decode) where
  session_turn_for-turn_of :
      (fresh sid : String) (cc : ContextCache D)
      → sid ≢ ""
      → (session_turn_for files path encode decode fresh sid cc).0
        ≡ some
            (turn_of (started fresh (get_session files path encode decode (session_key sid) cc).0))
  unfolding session_turn_for
  session_turn_for-turn_of fresh sid cc ne = elim (Bool-cases (sid == "")) [
    | inl e ↦ ground (arith, ==_iff sid "")
    | inr e ↦ rw e refl
  ]

  session_turn_for-begins :
      (fresh sid : String) (cc : ContextCache D)
      → sid ≢ ""
      → Coherent files path encode decode (session_key sid) cc
      → cc.enabled ≡ true
      → Continues files path encode decode law
          (session_key sid)
          (started fresh
            (get_session files path encode decode (session_key sid) cc).0).client_session_id
          (session_turn_for files path encode decode fresh sid cc).1
  unfolding session_turn_for
  session_turn_for-begins fresh sid cc ne co on =
      let key = session_key sid in
      let (answer, kept, same, still) =
        get_session-Reads files path encode decode key key cc co on in
      let (found, after) = get_session files path encode decode key cc in
      let st = started fresh found in
      let (end, written, stays) =
        set_session-Writes files path encode decode law key key
          (record st { turn_count = st.turn_count + 1 }) after (λ e. refl) kept (still ∙ on) in
      let id = st.client_session_id in
      elim (Bool-cases (sid == "")) [
        | inl e ↦ ground (arith, ==_iff sid "")
        | inr e ↦ rw e (
          end,
          stays,
          ap (has_gone_on id) written
              ∙ (rw (==_refl key) (
                  goes_on-keep_conversation id (lookup key after.mem)
                    (record st { turn_count = st.turn_count + 1 })
                  ∙ ground (arith, ==_refl id))),
        )
      ]

  session_turn_for-goes_on :
      (id fresh sid : String) (cc : ContextCache D)
      → sid ≢ ""
      → id ≢ ""
      → Continues files path encode decode law (session_key sid) id cc
      → (session_turn_for files path encode decode fresh sid cc).0
        ≡ some (record { client_session_id = id; is_start_of_session = false })
  session_turn_for-goes_on id fresh sid cc ne named c =
      let found = (get_session files path encode decode (session_key sid) cc).0 in
      let h =
        get_session-goes_on files path encode decode law (session_key sid) id (session_key sid) cc c
          (==_refl (session_key sid)) in
      session_turn_for-turn_of fresh sid cc ne
      ∙ ap (λ x. some (turn_of x)) (started_known id fresh found named h)
      ∙ same id found h
    where
      same :
          (id : String) (st : SessionState)
          → goes_on id st ≡ true
          → some (turn_of st)
            ≡ some (record { client_session_id = id; is_start_of_session = false })
      same id st h = ground (arith, ==_iff st.client_session_id id)

  -- After a request has taken a turn of a session, the next turn of that session continues it: it
  -- has the same client session id and is not the start, whatever requests came between that
  -- neither dropped the session nor disabled the cache, and also if it was evicted from memory.
  -- This is for a disk on which every write and removal succeeds, when the cache is enabled and
  -- does not contradict the session's file, no other key of those requests has the MD5 sum of the
  -- session's, and no call on the session comes between the halves of another; the halves of calls
  -- on other sessions may be in any order.
  pub session_turn_for-run_requests :
      (first next sid : String) (cc : ContextCache D) (rs : List Request)
      → sid ≢ ""
      → first ≢ ""
      → Coherent files path encode decode (session_key sid) cc
      → cc.enabled ≡ true
      → AllApart files path encode decode law (session_key sid) rs
      → all_spare (session_key sid) rs ≡ true
      → let (turn, after) = session_turn_for files path encode decode first sid cc in
        (t : SessionTurn) × (turn ≡ some t)
        × (t.client_session_id ≢ "")
        × ((session_turn_for files path encode decode next sid
              (run_requests files path encode decode after rs)).0
            ≡ some
                (record { client_session_id = t.client_session_id; is_start_of_session = false }))
  session_turn_for-run_requests first next sid cc rs ne drawn co on apart spare =
      let key = session_key sid in
      let (found, _) = get_session files path encode decode key cc in
      let after = (session_turn_for files path encode decode first sid cc).1 in
      let named = started_named first found drawn in
      let id = (started first found).client_session_id in
      let begun = session_turn_for-begins first sid cc ne co on in
      (
        turn_of (started first found),
        session_turn_for-turn_of first sid cc ne,
        named,
        session_turn_for-goes_on id next sid (run_requests files path encode decode after rs) ne
            named
            (run_requests-Continues files path encode decode law key id after rs named apart begun
              spare),
      )
