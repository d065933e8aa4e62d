-- ===== src/WebAdmin/Conversations.antt =====
-- pkg/webadmin/conversation_manager.go: which conversations a cleanup deletes. Times are numbers
-- (seconds); `dirty` is what `markDirty` leaves for persist.go. A Go map's order of entries is the
-- order of the association list.
pub mod Cleanup
use m365plus.Base.{
  ℕ, ◌+◌, ◌-◌, String, Bool, true, false, not, ◌&&◌, List, [], ◌∷◌, map, Option, none, some, ◌==◌,
  string_eq, if◌then◌else◌, ltb, length, drop, sort_slice,
}
use m365plus.Base.Map.{Map, lookup, insert, delete}

pub data Mode : Type 0 where
  after_response : Mode
  on_exit : Mode
  keep_latest : Mode
  max_age : Mode
  -- Any other text of M365_CLEANUP_MODE.
  unknown : String → Mode

pub record ManagedConversation : Type 0 where
  pub id : String
  pub account_id : String
  pub created_at : ℕ
  pub last_used_at : ℕ
  pub title : String

pub record Manager : Type 0 where
  pub entries : Map String ManagedConversation
  pub mode : Mode
  pub keep_n : ℕ
  pub age_limit : ℕ
  pub whitelist : Map String Bool
  pub dirty : Bool

unfoldable pub record_conversation : String → String → String → ℕ → Manager → Manager
record_conversation id account title now m = record m {
  entries =
      insert id
        (record {
          id = id;
          account_id = account;
          created_at = now;
          last_used_at = now;
          title = title;
        })
        m.entries;
  dirty = true;
}

unfoldable pub whitelist_add : String → Manager → Manager
whitelist_add id m = record m { whitelist = insert id true m.whitelist; dirty = true }

unfoldable pub whitelist_remove : String → Manager → Manager
whitelist_remove id m = record m { whitelist = delete id m.whitelist; dirty = true }

abbrev pub is_true : Option Bool → Bool
is_true none = false
is_true (some b) = b

unfoldable pub is_whitelisted : Manager → String → Bool
is_whitelisted m id = is_true (lookup id m.whitelist)

unfoldable pub delete_conversation : String → Manager → Manager
delete_conversation id m = record m { entries = delete id m.entries; dirty = true }

unfoldable pub list_conversations : Manager → List ManagedConversation
list_conversations m = map (λ e. e.1) m.entries

-- The ids of the entries that pass the test and are not whitelisted, in the order of the entries.
unfoldable pub select :
    Manager → (ManagedConversation → Bool) → Map String ManagedConversation → List String
select m test [] = []
select m test ((id, c) ∷ rest) =
    let more = select m test rest in if not (is_whitelisted m id) && test c then id ∷ more else more

abbrev pub used_after : String × ManagedConversation → String × ManagedConversation → Bool
used_after a b = ltb (b.1).last_used_at (a.1).last_used_at

-- The `switch` on the mode.
unfoldable pub chosen : Mode → ℕ → Manager → List String
chosen after_response now m = select m (λ c. ltb (c.last_used_at + 30) now) m.entries
chosen max_age now m = select m (λ c. ltb (c.created_at + m.age_limit) now) m.entries
chosen keep_latest now m =
    if ltb m.keep_n (length m.entries)
    then select m (λ _. true) (drop m.keep_n (sort_slice used_after m.entries))
    else []
chosen on_exit now m = []
chosen (unknown _) now m = []

unfoldable pub delete_all :
    List String → Map String ManagedConversation → Map String ManagedConversation
delete_all [] entries = entries
delete_all (id ∷ ids) entries = delete_all ids (delete id entries)

abbrev pub is_empty : List String → Bool
is_empty [] = true
is_empty (_ ∷ _) = false

unfoldable pub cleanup : ℕ → Manager → List String × Manager
cleanup now m =
    let ids = chosen m.mode now m in
    (
      ids,
      record m {
        entries = delete_all ids m.entries;
        dirty = if is_empty ids then m.dirty else true;
      },
    )

abbrev pub is_on_exit : Mode → Bool
is_on_exit on_exit = true
is_on_exit after_response = false
is_on_exit keep_latest = false
is_on_exit max_age = false
is_on_exit (unknown _) = false

unfoldable pub should_cleanup : Manager → Bool
should_cleanup m = not (is_on_exit m.mode)

unfoldable pub set_mode : Mode → Manager → Manager
set_mode mode m = record m { mode = mode }
