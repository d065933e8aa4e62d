-- ===== src/WebAdmin/Sessions.antt =====
-- pkg/webadmin/sessions.go: the store of conversations and the store of user sessions. Times are
-- numbers, 0 the zero time; a uuid enters as `fresh`. `dirty` is what `markDirty` leaves for
-- persist.go, whose cycle WebAdmin/Persist.antt models.
pub mod Survival
use m365plus.Base.{
  ℕ, ◌+◌, String, Bool, true, false, not, ◌&&◌, List, [], ◌∷◌, map, Option, none, some, ◌==◌,
  string_eq, nat_eq, if◌then◌else◌, ltb,
}
use m365plus.Base.Map.{Map, lookup, insert, delete, keep_entries}

pub record Conversation : Type 0 where
  pub id : String
  pub account_id : String
  pub conversation_id : String
  pub session_id : String
  pub title : String
  pub created_at : ℕ
  pub updated_at : ℕ

pub record SessionStore : Type 0 where
  pub entries : Map String Conversation
  pub dirty : Bool

unfoldable pub list : SessionStore → List Conversation
list s = map (λ e. e.1) s.entries

unfoldable pub get : String → SessionStore → Option Conversation
get id s = lookup id s.entries

unfoldable pub completed : String → ℕ → Conversation → Conversation
completed fresh now v = record v {
  id = if v.id == "" then fresh else v.id;
  created_at = if v.created_at == 0 then now else v.created_at;
  updated_at = now;
}

unfoldable pub upsert : String → ℕ → Conversation → SessionStore → Conversation × SessionStore
upsert fresh now v s =
    let w = completed fresh now v in (w, record { entries = insert w.id w s.entries; dirty = true })

unfoldable pub remove : String → SessionStore → Bool × SessionStore
remove id s = elim (lookup id s.entries) [
  | none ↦ (false, s)
  | some _ ↦ (true, record { entries = delete id s.entries; dirty = true })
]

pub record UserSession : Type 0 where
  pub conversation_id : String
  pub session_id : String
  pub account_id : String
  pub last_used_at : ℕ

pub record UserSessionStore : Type 0 where
  pub entries : Map String UserSession
  pub ttl : ℕ
  pub dirty : Bool

-- `v.LastUsedAt.Before(now - ttl)`.
unfoldable pub is_stale : ℕ → ℕ → UserSession → Bool
is_stale ttl now v = ltb (v.last_used_at + ttl) now

unfoldable pub evict : ℕ → UserSessionStore → UserSessionStore
evict now s =
    if s.ttl == 0
    then s
    else record s { entries = keep_entries (λ _ v. not (is_stale s.ttl now v)) s.entries }

abbrev pub touch : ℕ → UserSession → UserSession
touch now v = record v { last_used_at = now }

unfoldable pub touch_found :
    String → ℕ → Option UserSession → UserSessionStore → Option UserSession × UserSessionStore
touch_found user now none s = (none, s)
touch_found user now (some v) s =
    (some (touch now v), record s { entries = insert user (touch now v) s.entries; dirty = true })

unfoldable pub get_user : String → ℕ → UserSessionStore → Option UserSession × UserSessionStore
get_user user now s = let t = evict now s in touch_found user now (lookup user t.entries) t

unfoldable pub put_user : String → UserSession → UserSessionStore → UserSessionStore
put_user user v s = record s { entries = insert user v s.entries; dirty = true }

unfoldable pub delete_user : String → UserSessionStore → UserSessionStore
delete_user user s = record s { entries = delete user s.entries; dirty = true }

-- `v.LastUsedAt.After(now - window)`.
unfoldable pub active_from : ℕ → ℕ → Map String UserSession → Map String Bool
active_from window now [] = []
active_from window now ((_, v) ∷ m) =
    let rest = active_from window now m in
    if ltb now (v.last_used_at + window) then insert v.conversation_id true rest else rest

unfoldable pub active_conversations : ℕ → ℕ → UserSessionStore → Map String Bool
active_conversations window now s = active_from window now s.entries
