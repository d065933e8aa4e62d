-- ===== src/WebAdmin/Resolver/Bindings.antt =====
-- pkg/webadmin/session_resolver.go: the stored sessions and their indexes. Times are numbers.
use m365plus.Base.{
  ℕ, ◌+◌, ◌-◌, suc, String, Bool, true, false, List, [], ◌∷◌, map, Option, none, some, ◌==◌,
  string_eq, nat_eq, if◌then◌else◌, ltb, length, take, sort_slice,
}
use m365plus.Base.Map.{Map, lookup, insert, delete}
use m365plus.WebAdmin.Resolver.Messages.{Message}

pub record SessionBinding : Type 0 where
  pub session_id : String
  pub conversation_id : String
  pub account_id : String
  pub created_at : ℕ
  pub last_used_at : ℕ
  pub ip_fingerprint : String
  pub user_field : String
  pub context_finger : String
  pub context_history : List Message

abbrev pub Index : Type 0
Index = Map String String

pub record SessionResolver : Type 0 where
  pub sessions : Map String SessionBinding
  pub by_explicit : Index
  pub by_user_field : Index
  pub by_ip_finger : Index
  pub by_context : Index
  pub ttl : ℕ
  pub context_ttl : ℕ
  pub max_sessions : ℕ
  pub dirty : Bool

-- `if key != "" { index[key] = id }`.
unfoldable pub put_index : String → String → Index → Index
put_index key id index = if key == "" then index else insert key id index

-- `if index[key] == id { delete(index, key) }`, the empty string for a missing key.
unfoldable pub drop_index : String → String → Index → Index
drop_index key id index = if or_empty (lookup key index) == id then delete key index else index
  where
    or_empty : Option String → String
    or_empty none = ""
    or_empty (some v) = v

-- `if key != "" { delete(index, key) }`.
unfoldable pub clear_index : String → Index → Index
clear_index key index = if key == "" then index else delete key index

unfoldable pub reindex : SessionBinding → SessionResolver → SessionResolver
reindex s r = record r {
  sessions = insert s.session_id s r.sessions;
  by_user_field = put_index s.user_field s.session_id r.by_user_field;
  by_ip_finger = put_index s.ip_fingerprint s.session_id r.by_ip_finger;
  by_context = put_index s.context_finger s.session_id r.by_context;
}

unfoldable pub drop_session : String → SessionBinding → SessionResolver → SessionResolver
drop_session id s r = record r {
  sessions = delete id r.sessions;
  by_user_field = drop_index s.user_field id r.by_user_field;
  by_ip_finger = drop_index s.ip_fingerprint id r.by_ip_finger;
  by_context = drop_index s.context_finger id r.by_context;
}

-- `now.Sub(s.LastUsedAt) > ttl`.
abbrev pub is_past : ℕ → ℕ → SessionBinding → Bool
is_past ttl now s = ltb (s.last_used_at + ttl) now

unfoldable pub drop_if_past : ℕ → String → SessionBinding → SessionResolver → SessionResolver
drop_if_past now id s r = if is_past r.ttl now s then drop_session id s r else r

unfoldable pub drop_past : ℕ → Map String SessionBinding → SessionResolver → SessionResolver
drop_past now [] r = r
drop_past now ((id, s) ∷ rest) r = drop_past now rest (drop_if_past now id s r)

unfoldable pub drop_each : Map String SessionBinding → SessionResolver → SessionResolver
drop_each [] r = r
drop_each ((id, s) ∷ rest) r = drop_each rest (drop_session id s r)

abbrev pub used_before : String × SessionBinding → String × SessionBinding → Bool
used_before a b = ltb (a.1).last_used_at (b.1).last_used_at

-- The least recently used sessions beyond `maxSessions`.
unfoldable pub drop_excess : SessionResolver → SessionResolver
drop_excess r =
    if ltb r.max_sessions (length r.sessions)
    then drop_each (take (length r.sessions - r.max_sessions) (sort_slice used_before r.sessions)) r
    else r

unfoldable pub evict : ℕ → SessionResolver → SessionResolver
evict now r = drop_excess (drop_past now r.sessions r)

-- `loadLocked`: the sessions of the file that are not past their time, indexed again.
unfoldable pub load : ℕ → List SessionBinding → SessionResolver → SessionResolver
load now [] r = r
load now (s ∷ rest) r = load now rest (if is_past r.ttl now s then r else reindex s r)

unfoldable pub get_session : String → SessionResolver → Option SessionBinding
get_session id r = lookup id r.sessions

abbrev pub newer : String × SessionBinding → String × SessionBinding → Bool
newer a b = ltb (b.1).last_used_at (a.1).last_used_at

unfoldable pub list_sessions : SessionResolver → List SessionBinding
list_sessions r = map (λ e. e.1) (sort_slice newer r.sessions)

-- What `DeleteSession` and `UnbindByConversation` both do to a session.
unfoldable pub forget : String → SessionBinding → SessionResolver → SessionResolver
forget id s r = record r {
  sessions = delete id r.sessions;
  by_explicit = delete id r.by_explicit;
  by_user_field = clear_index s.user_field r.by_user_field;
  by_ip_finger = clear_index s.ip_fingerprint r.by_ip_finger;
  by_context = clear_index s.context_finger r.by_context;
}

unfoldable pub delete_session : String → SessionResolver → Bool × SessionResolver
delete_session id r = elim (lookup id r.sessions) [
  | none ↦ (false, r)
  | some s ↦ (true, record (forget id s r) { dirty = true })
]

-- The loop of `UnbindByConversation`: how many it removed, and what is left.
unfoldable pub forget_all :
    String → Map String SessionBinding → SessionResolver → ℕ × SessionResolver
forget_all conversation [] r = (0, r)
forget_all conversation ((id, s) ∷ rest) r =
    let skip = forget_all conversation rest r in
    let take_out = forget_all conversation rest (forget id s r) in
    if s.conversation_id == conversation then (suc take_out.0, take_out.1) else skip

unfoldable pub unbind_by_conversation : String → SessionResolver → ℕ × SessionResolver
unbind_by_conversation conversation r =
    let out = forget_all conversation r.sessions r in
    (out.0, record out.1 { dirty = if out.0 == 0 then out.1.dirty else true })
