-- ===== src/Servers/ContextCache/Bounds.antt =====
-- pkg/servers/api.go: the bound of `ContextCache`, and that its order names what it holds.
use m365plus.Base.{
  ◌+◌, ◌≤◌, ◌≡◌, refl, ap, ◌∙◌, inl, inr, String, Bool, true, false, not, ◌&&◌, ◌||◌, List, [], ◌∷◌,
  ◌++◌, Option, none, some, ltb, ◌==◌, ==_iff, ==_refl, on_both, string_eq, Bool-cases, length,
  arith,
}
use m365plus.Base.Map.{Map, lookup, insert, delete, lookup-insert, lookup-delete}
use m365plus.Servers.ContextCache.{
  SessionState, FileSystem, ContextCache, context_cache_max_size, without, evict, put_last,
  keep_conversation, from_disk, answer_of, look_up, get_session, set_session, set, set_enabled,
  delete_session, session_key, SessionTurn, session_turn_for, update_chat_stream_session,
}

-- The calls on a cache. `reads` stands for `Get` too; `reads` and `writes` are the halves of a
-- call that others come between.
pub data Request : Type 0 where
  reads : String → Request
  sets : String → String → Request
  writes : String → SessionState → Request
  drops : String → Request
  turns : String → String → Request
  ends : String → String → Bool → Request
  enables : Bool → Request

module _ {ℓ} {D : Type ℓ} {F : Type 0} (files : FileSystem F D) (path : String → String)
    (encode : SessionState → F) (decode : F → Option SessionState) where
  unfoldable pub step : ContextCache D → Request → ContextCache D
  step cc (reads key) = (get_session files path encode decode key cc).1
  step cc (sets key conv_id) = set files path encode decode key conv_id cc
  step cc (writes key st) = set_session files path encode decode key st cc
  step cc (drops key) = delete_session files path encode decode key cc
  step cc (turns fresh sid) = (session_turn_for files path encode decode fresh sid cc).1
  step cc (ends sid conv_id is_empty) =
      update_chat_stream_session files path encode decode sid conv_id is_empty cc
  step cc (enables on) = set_enabled on cc

  unfoldable pub run_requests : ContextCache D → List Request → ContextCache D
  run_requests cc [] = cc
  run_requests cc (r ∷ rs) = run_requests (step cc r) rs

abbrev pub holds : String → List String → Bool
holds k [] = false
holds k (j ∷ js) = j == k || holds k js

abbrev pub distinct : List String → Bool
distinct [] = true
distinct (k ∷ ks) = not (holds k ks) && distinct ks

abbrev pub is_some : Option SessionState → Bool
is_some none = false
is_some (some _) = true

-- The order names every key in memory once, and no other.
abbrev pub Names : List String → Map String SessionState → Type 0
Names order mem = (distinct order ≡ true) × ((k : String) → holds k order ≡ is_some (lookup k mem))

holds-append : (k j : String) (ks : List String) → holds k (ks ++ j ∷ []) ≡ (holds k ks || j == k)
holds-append k j [] = ground arith
holds-append k j (i ∷ is) = ground (arith, holds-append k j is)

distinct-append :
    (j : String) (ks : List String)
    → distinct ks ≡ true
    → holds j ks ≡ false
    → distinct (ks ++ j ∷ []) ≡ true
distinct-append j [] h n = refl
distinct-append j (i ∷ is) h n =
    ground (arith, distinct-append j is, holds-append i j is, ==_iff i j, ==_iff j i)

holds-without :
    (k j : String) (ks : List String)
    → distinct ks ≡ true
    → holds k (without j ks) ≡ (not (j == k) && holds k ks)
unfolding without
holds-without k j [] h = ground arith
holds-without k j (i ∷ is) h =
    ground (arith, holds-without k j is, ==_iff i j, ==_iff i k, ==_iff j k)

distinct-without :
    (j : String) (ks : List String) → distinct ks ≡ true → distinct (without j ks) ≡ true
unfolding without
distinct-without j [] h = refl
distinct-without j (i ∷ is) h = ground (arith, distinct-without j is, holds-without i j is)

length-without : (j : String) (ks : List String) → length (without j ks) ≤ length ks
unfolding without
length-without j [] = omega arith
length-without j (i ∷ is) = ground (arith, length-without j is)

delete-Names :
    (old : String) (order : List String) (mem : Map String SessionState)
    → Names (old ∷ order) mem
    → Names order (delete old mem)
delete-Names old order mem (d, h) =
    (ground arith, λ k. ground (arith, h k, lookup-delete old k mem, ==_iff old k))

evict-Names :
    (order : List String) (mem : Map String SessionState)
    → Names order mem
    → let (m, left) = evict mem order in Names left m × (length left ≤ context_cache_max_size)
unfolding evict
evict-Names [] mem n = (n, omega arith)
evict-Names (old ∷ order) mem n =
    elim (Bool-cases (ltb context_cache_max_size (length order + 1))) [
      | inl over ↦ rw over (evict-Names order (delete old mem) (delete-Names old order mem n))
      | inr fits ↦ rw fits (n, ground arith)
    ]

append-Names :
    (key : String) (st : SessionState) (order : List String) (mem : Map String SessionState)
    → distinct order ≡ true
    → holds key order ≡ false
    → ((k : String) → (key == k) ≡ false → holds k order ≡ is_some (lookup k mem))
    → Names (order ++ key ∷ []) (insert key st mem)
append-Names key st order mem d n h = (
  distinct-append key order d n,
  λ k. ground (arith, holds-append k key order, lookup-insert key k st mem, h k, n),
)

module _ {ℓ} {D : Type ℓ} where
  -- The order names what is in memory, and is no longer than the cache may be.
  abbrev pub IsBounded : ContextCache D → Type 0
  IsBounded cc = Names cc.order cc.mem × (length cc.order ≤ context_cache_max_size)

  put_last-IsBounded :
      (key : String) (st : SessionState) (order : List String) (cc : ContextCache D)
      → distinct order ≡ true
      → holds key order ≡ false
      → ((k : String) → (key == k) ≡ false → holds k order ≡ is_some (lookup k cc.mem))
      → IsBounded (put_last key st order cc)
  unfolding put_last
  put_last-IsBounded key st order cc d n h =
      evict-Names (order ++ key ∷ []) (insert key st cc.mem)
        (append-Names key st order cc.mem d n h)

  module _ {F : Type 0} (files : FileSystem F D) (path : String → String)
      (encode : SessionState → F) (decode : F → Option SessionState) where
    answer_of-IsBounded :
        (key : String) (o : Option SessionState) (cc : ContextCache D)
        → lookup key cc.mem ≡ none
        → IsBounded cc
        → IsBounded (answer_of files path encode decode key o cc).1
    answer_of-IsBounded key none cc e b = b
    answer_of-IsBounded key (some st) cc e ((d, h), b) =
        put_last-IsBounded key st cc.order cc d (h key ∙ ap is_some e) (λ k ne. h k)

    look_up-IsBounded :
        (key : String) (o : Option SessionState) (cc : ContextCache D)
        → lookup key cc.mem ≡ o
        → IsBounded cc
        → IsBounded (look_up files path encode decode key o cc).1
    look_up-IsBounded key (some st) cc e b = b
    look_up-IsBounded key none cc e b =
        answer_of-IsBounded key (from_disk files path encode decode key cc.disk) cc e b

    pub get_session-IsBounded :
        (key : String) (cc : ContextCache D)
        → IsBounded cc
        → IsBounded (get_session files path encode decode key cc).1
    unfolding get_session
    get_session-IsBounded key cc b =
        on_both (λ (r : SessionState × ContextCache D). IsBounded r.1) (not cc.enabled) b
          (look_up-IsBounded key (lookup key cc.mem) cc refl b)

    pub set_session-IsBounded :
        (key : String) (st : SessionState) (cc : ContextCache D)
        → IsBounded cc
        → IsBounded (set_session files path encode decode key st cc)
    unfolding set_session
    set_session-IsBounded key st cc b =
        let ((d, h), n) = b in
        let fresh = holds-without key key cc.order d in
        let placed =
          put_last-IsBounded key (keep_conversation (lookup key cc.mem) st) (without key cc.order)
            cc (distinct-without key cc.order d) (ground (arith, fresh, ==_refl key))
            (λ k ne. ground (arith, holds-without k key cc.order d, h k)) in
        on_both IsBounded (not cc.enabled) b placed

    pub set-IsBounded :
        (key conv_id : String) (cc : ContextCache D)
        → IsBounded cc
        → IsBounded (set files path encode decode key conv_id cc)
    unfolding set
    set-IsBounded key conv_id cc b =
        let (prev, after) = get_session files path encode decode key cc in
        let got = get_session-IsBounded key cc b in
        let put = set_session-IsBounded key (record prev { conversation_id = conv_id }) after got in
        on_both IsBounded (not cc.enabled) b
          (on_both IsBounded (prev.conversation_id == conv_id) got put)

    pub delete_session-IsBounded :
        (key : String) (cc : ContextCache D)
        → IsBounded cc
        → IsBounded (delete_session files path encode decode key cc)
    unfolding delete_session
    delete_session-IsBounded key cc ((d, h), n) = (
      (
        distinct-without key cc.order d,
        λ k. ground (arith, holds-without k key cc.order d, lookup-delete key k cc.mem, h k),
      ),
      ground (arith, length-without key cc.order),
    )

    session_turn_for-IsBounded :
        (fresh sid : String) (cc : ContextCache D)
        → IsBounded cc
        → IsBounded (session_turn_for files path encode decode fresh sid cc).1
    unfolding session_turn_for
    session_turn_for-IsBounded fresh sid cc b =
        on_both (λ (r : Option SessionTurn × ContextCache D). IsBounded r.1) (sid == "") b
          (set_session-IsBounded _ _ _ (get_session-IsBounded (session_key sid) cc b))

    update_chat_stream_session-IsBounded :
        (sid final_conv_id : String) (is_empty : Bool) (cc : ContextCache D)
        → IsBounded cc
        → IsBounded
            (update_chat_stream_session files path encode decode sid final_conv_id is_empty cc)
    unfolding update_chat_stream_session
    update_chat_stream_session-IsBounded sid final_conv_id is_empty cc b =
        on_both IsBounded (sid == "") b (
          on_both IsBounded is_empty (delete_session-IsBounded (session_key sid) cc b) (
            on_both IsBounded (not (final_conv_id == ""))
              (set_session-IsBounded _ _ _ (get_session-IsBounded (session_key sid) cc b)) b))

    step-IsBounded :
        (cc : ContextCache D) (r : Request)
        → IsBounded cc
        → IsBounded (step files path encode decode cc r)
    unfolding step
    step-IsBounded cc (reads key) b = get_session-IsBounded key cc b
    step-IsBounded cc (sets key conv_id) b = set-IsBounded key conv_id cc b
    step-IsBounded cc (writes key st) b = set_session-IsBounded key st cc b
    step-IsBounded cc (drops key) b = delete_session-IsBounded key cc b
    step-IsBounded cc (turns fresh sid) b = session_turn_for-IsBounded fresh sid cc b
    step-IsBounded cc (ends sid conv_id is_empty) b =
        update_chat_stream_session-IsBounded sid conv_id is_empty cc b
    step-IsBounded cc (enables on) b = b

    -- However it is used, and whatever the disk does, the cache keeps at most 256 sessions in
    -- memory, each of them in its order once, so that each is evicted in its turn.
    pub run_requests-IsBounded :
        (cc : ContextCache D) (rs : List Request)
        → IsBounded cc
        → IsBounded (run_requests files path encode decode cc rs)
    unfolding run_requests
    run_requests-IsBounded cc [] b = b
    run_requests-IsBounded cc (r ∷ rs) b =
        run_requests-IsBounded (step files path encode decode cc r) rs (step-IsBounded cc r b)
