-- ===== src/Servers/ContextCache/Race.antt =====
-- pkg/servers/api.go: two requests between the halves of `sessionTurnFor`.
use m365plus.Base.{◌≡◌, refl, ap, ◌∙◌, String, true, not, Option, none, on_both, string_eq, nat_eq}
use m365plus.Base.Map.{lookup}
use m365plus.Servers.ContextCache.{
  SessionState, FileSystem, ContextCache, from_disk, get_session, session_key, finish_turn,
  no_session, started, turn_of,
}

module _ {ℓ} {D : Type ℓ} {F : Type 0} (files : FileSystem F D) (path : String → String)
    (encode : SessionState → F) (decode : F → Option SessionState) where
  get_session_unknown :
      (key : String) (cc : ContextCache D)
      → lookup key cc.mem ≡ none
      → from_disk files path encode decode key cc.disk ≡ none
      → get_session files path encode decode key cc ≡ (no_session, cc)
  unfolding get_session
  get_session_unknown key cc m d =
      on_both (λ (r : SessionState × ContextCache D). r ≡ (no_session, cc)) (not cc.enabled) refl
        (rw (m, d) refl)

  -- Two requests that open one session at once, so that the second reads before the first writes,
  -- are both told that theirs is the start of the session, each with its own client session id.
  pub finish_turn_twice :
      (first second sid : String) (cc : ContextCache D)
      → lookup (session_key sid) cc.mem ≡ none
      → from_disk files path encode decode (session_key sid) cc.disk ≡ none
      → let (found, read_once) = get_session files path encode decode (session_key sid) cc in
        let (again, read_twice) =
          get_session files path encode decode (session_key sid) read_once in
        let (turn, written) = finish_turn files path encode decode first sid found read_twice in
        let (other, last) = finish_turn files path encode decode second sid again written in
        (turn ≡ record { client_session_id = first; is_start_of_session = true })
        × (other ≡ record { client_session_id = second; is_start_of_session = true })
  finish_turn_twice first second sid cc m d =
      let once = get_session_unknown (session_key sid) cc m d in
      let begun : (fresh : String) (x : SessionState × ContextCache D)
          → x ≡ (no_session, cc)
          → turn_of (started fresh x.0)
            ≡ record { client_session_id = fresh; is_start_of_session = true } =
        λ fresh x e. ap (λ (y : SessionState × ContextCache D). turn_of (started fresh y.0)) e in
      (
        begun first _ once,
        begun second _ (
            ap
              (λ (y : SessionState × ContextCache D).
                get_session files path encode decode (session_key sid) y.1)
              once
            ∙ once),
      )
