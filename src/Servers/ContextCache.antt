-- ===== src/Servers/ContextCache.antt =====
-- pkg/servers/api.go: `ContextCache`, the sessions in memory over one file for each. The files are
-- parameters: `path` names the file of a key, `encode` and `decode` are `json.Marshal` and
-- `json.Unmarshal` of a `SessionState`. An error of a write or of a removal is ignored there, so
-- `write` and `remove` answer the disk alone, which a failed one may leave as it was. Each method
-- of the cache holds its lock; `Set`, `sessionTurnFor` and `updateChatStreamSession` call two of
-- them, and stand here for the case that nothing comes between.
pub mod OnDisk
pub mod Kept
pub mod Turns
pub mod Race
pub mod Bounds
use m365plus.Base.{
  ℕ, suc, ◌+◌, ◌-◌, String, Bool, true, false, not, ◌||◌, List, [], ◌∷◌, ◌++◌, Option, none, some,
  ltb, ◌==◌, string_eq, nat_eq, if◌then◌else◌, length,
}
use Prim.Native.String.{◌++◌ as joined}
use m365plus.Base.Map.{Map, lookup, insert, delete}

abbrev pub context_cache_max_size : ℕ
context_cache_max_size = 256

pub record SessionState : Type 0 where
  pub conversation_id : String
  pub client_session_id : String
  pub turn_count : ℕ

abbrev pub no_session : SessionState
no_session = record { conversation_id = ""; client_session_id = ""; turn_count = 0 }

-- `payload.SessionTurn`.
pub record SessionTurn : Type 0 where
  pub client_session_id : String
  pub is_start_of_session : Bool

abbrev pub turn_of : SessionState → SessionTurn
turn_of st = record {
  client_session_id = st.client_session_id;
  is_start_of_session = st.turn_count == 0;
}

-- Reading, writing and removing files, of contents F, on a disk D.
pub record FileSystem {ℓ} (F : Type 0) (D : Type ℓ) : Type ℓ where
  pub read : String → D → Option F
  pub write : String → F → D → D
  pub remove : String → D → D

pub record ContextCache {ℓ} (D : Type ℓ) : Type ℓ where
  pub mem : Map String SessionState
  pub order : List String
  pub enabled : Bool
  pub disk : D

-- The slice without the place that `indexOf` answers.
unfoldable pub without : String → List String → List String
without key [] = []
without key (k ∷ ks) = if k == key then ks else k ∷ without key ks

unfoldable pub evict : Map String SessionState → List String → Map String SessionState × List String
evict mem [] = (mem, [])
evict mem (old ∷ order) =
    let rest = evict (delete old mem) order in
    if ltb context_cache_max_size (length order + 1) then rest else (mem, old ∷ order)

abbrev pub keep_conversation : Option SessionState → SessionState → SessionState
keep_conversation none st = st
keep_conversation (some prev) st =
    if st.conversation_id == "" then record st { conversation_id = prev.conversation_id } else st

abbrev pub session_key : String → String
session_key sid = joined "session:" sid

abbrev pub started : String → SessionState → SessionState
started fresh st =
    if st.client_session_id == ""
    then record st { client_session_id = fresh; turn_count = 0 }
    else st

module _ {ℓ} {D : Type ℓ} where
  abbrev pub set_enabled : Bool → ContextCache D → ContextCache D
  set_enabled on cc = record cc { enabled = on }

  abbrev pub new_context_cache : D → ContextCache D
  new_context_cache disk = record { mem = []; order = []; enabled = true; disk = disk }

  -- `cc.mem[key] = st`, the key at the end of an order, and `evict`.
  unfoldable pub put_last : String → SessionState → List String → ContextCache D → ContextCache D
  put_last key st order cc =
      let (mem, left) = evict (insert key st cc.mem) (order ++ key ∷ []) in
      record cc { mem = mem; order = left }

  module _ {F : Type 0} (files : FileSystem F D) (path : String → String)
      (encode : SessionState → F) (decode : F → Option SessionState) where
    -- What the file of a key holds, if it can be read.
    unfoldable pub from_disk : String → D → Option SessionState
    from_disk key disk = elim (files.read (path key) disk) [
      | none ↦ none
      | some data_read ↦ decode data_read
    ]

    abbrev pub answer_of :
        String → Option SessionState → ContextCache D → SessionState × ContextCache D
    answer_of key none cc = (no_session, cc)
    answer_of key (some st) cc = (st, put_last key st cc.order cc)

    abbrev pub look_up :
        String → Option SessionState → ContextCache D → SessionState × ContextCache D
    look_up key (some st) cc = (st, cc)
    look_up key none cc = answer_of key (from_disk key cc.disk) cc

    unfoldable pub get_session : String → ContextCache D → SessionState × ContextCache D
    get_session key cc =
        if not cc.enabled then (no_session, cc) else look_up key (lookup key cc.mem) cc

    unfoldable pub get : String → ContextCache D → String × ContextCache D
    get key cc = let (st, after) = get_session key cc in (st.conversation_id, after)

    unfoldable pub set_session : String → SessionState → ContextCache D → ContextCache D
    set_session key given cc =
        let st = keep_conversation (lookup key cc.mem) given in
        let placed = put_last key st (without key cc.order) cc in
        if not cc.enabled
        then cc
        else record placed { disk = files.write (path key) (encode st) placed.disk }

    unfoldable pub set : String → String → ContextCache D → ContextCache D
    set key conv_id cc =
        let (prev, after) = get_session key cc in
        if not cc.enabled
        then cc
        else if prev.conversation_id == conv_id
        then after
        else set_session key (record prev { conversation_id = conv_id }) after

    unfoldable pub delete_session : String → ContextCache D → ContextCache D
    delete_session key cc = record cc {
      mem = delete key cc.mem;
      order = without key cc.order;
      disk = files.remove (path key) cc.disk;
    }

    -- The second half of `sessionTurnFor`, on what its `GetSession` found; `fresh` is the uuid that
    -- it would draw.
    abbrev pub finish_turn :
        String → String → SessionState → ContextCache D → SessionTurn × ContextCache D
    finish_turn fresh sid found cc =
        let st = started fresh found in
        (
          turn_of st,
          set_session (session_key sid) (record st { turn_count = st.turn_count + 1 }) cc,
        )

    -- `sessionTurnFor`. The lock is free between its halves; here nothing comes between them.
    unfoldable pub session_turn_for :
        String → String → ContextCache D → Option SessionTurn × ContextCache D
    session_turn_for fresh sid cc =
        let (found, after) = get_session (session_key sid) cc in
        let (turn, last) = finish_turn fresh sid found after in
        if sid == "" then (none, cc) else (some turn, last)

    -- `updateChatStreamSession`; `is_empty` is that the turn gave no text, thought or call.
    unfoldable pub update_chat_stream_session :
        String → String → Bool → ContextCache D → ContextCache D
    update_chat_stream_session sid final_conv_id is_empty cc =
        let (st, after) = get_session (session_key sid) cc in
        if sid == ""
        then cc
        else if is_empty
        then delete_session (session_key sid) cc
        else if not (final_conv_id == "")
        then set_session (session_key sid) (record st { conversation_id = final_conv_id }) after
        else cc
