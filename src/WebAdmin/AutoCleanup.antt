-- ===== src/WebAdmin/AutoCleanup.antt =====
-- pkg/webadmin/auto_cleanup.go: the removal of idle conversations from the cloud, over the session
-- resolver, the user sessions and the conversation manager. The cloud is a parameter: `list` is
-- `ListConversations`, none on an error, and `remove` is `DeleteConversation`, with whether it
-- succeeded. Times are milliseconds. A chat without a time that is a number has none. `deleted`
-- holds the ids where the code counts them.
pub mod Spared
pub mod Kept
use m365plus.Base.{
  ℕ, zero, suc, ◌+◌, String, Bool, true, false, not, ◌||◌, ◌&&◌, List, [], ◌∷◌, ◌++◌, map, Option,
  none, some, ltb, ◌==◌, string_eq, if◌then◌else◌, filterb, take, drop, sort_slice,
}
use m365plus.Base.Map.{Map, lookup, insert}
use m365plus.WebAdmin.Conversations.{
  ManagedConversation, Manager, is_true, list_conversations, delete_conversation,
}
use m365plus.WebAdmin.Sessions.{UserSessionStore, active_conversations}
use m365plus.WebAdmin.Resolver.Bindings.{
  SessionBinding, SessionResolver, list_sessions, unbind_by_conversation,
}

pub record Chat : Type 0 where
  pub conversation_id : String
  pub create_ms : Option ℕ

pub record Candidate : Type 0 where
  pub id : String
  pub create_ms : ℕ

pub record Cloud {ℓ} (C : Type ℓ) : Type ℓ where
  pub list : C → Option (List Chat)
  pub remove : String → C → Bool × C

pub record Server {ℓ} (C : Type ℓ) : Type ℓ where
  pub cloud : C
  pub manager : Manager
  pub resolver : SessionResolver
  pub user_sessions : UserSessionStore
  pub deleted : List String

unfoldable pub mark : List String → Map String Bool → Map String Bool
mark [] active = active
mark (id ∷ ids) active = mark ids (insert id true active)

-- `LastUsedAt.After(now - window)`.
abbrev pub is_recent : ℕ → ℕ → ℕ → Bool
is_recent window now used = ltb now (used + window)

module _ {ℓ} {C : Type ℓ} where
  abbrev pub bound_ids : ℕ → ℕ → Server C → List String
  bound_ids window now s =
      map (λ b. b.conversation_id)
        (filterb (λ b. is_recent window now b.last_used_at) (list_sessions s.resolver))

  abbrev pub user_ids : ℕ → ℕ → Server C → List String
  user_ids window now s = map (λ e. e.0) (active_conversations window now s.user_sessions)

  abbrev pub whitelisted_ids : Server C → List String
  whitelisted_ids s = map (λ e. e.0) s.manager.whitelist

  abbrev pub managed_ids : ℕ → ℕ → Server C → List String
  managed_ids window now s =
      map (λ c. c.id)
        (filterb (λ c. is_recent window now c.last_used_at) (list_conversations s.manager))

  unfoldable pub active_conversation_set : ℕ → ℕ → Server C → Map String Bool
  active_conversation_set window now s =
      mark (managed_ids window now s)
        (mark (whitelisted_ids s) (mark (user_ids window now s) (mark (bound_ids window now s) [])))

  unfoldable pub drop_conversation : String → Server C → Server C
  drop_conversation id s = record s {
    manager = delete_conversation id s.manager;
    resolver = (unbind_by_conversation id s.resolver).1;
  }

-- The chats that may be deleted, with whether they are older than `max_age`.
abbrev pub candidate_of : Map String Bool → Chat → Option Candidate
candidate_of active chat =
    if chat.conversation_id == ""
    then none
    else if is_true (lookup chat.conversation_id active)
    then none
    else elim chat.create_ms [
      | none ↦ none
      | some ms ↦ some (record { id = chat.conversation_id; create_ms = ms })
    ]

abbrev pub add_candidate : Option Candidate → List Candidate → List Candidate
add_candidate none cs = cs
add_candidate (some c) cs = c ∷ cs

unfoldable pub candidates : Map String Bool → List Chat → List Candidate
candidates active [] = []
candidates active (chat ∷ chats) =
    add_candidate (candidate_of active chat) (candidates active chats)

abbrev pub is_stale : ℕ → ℕ → Candidate → Bool
is_stale max_age now c = ltb (c.create_ms + max_age) now

abbrev pub older : Candidate → Candidate → Bool
older a b = ltb a.create_ms b.create_ms

-- What a round deletes: the stale ones, and the others from the place `keep_n` on.
unfoldable pub doomed : ℕ → ℕ → ℕ → List Candidate → List Candidate
doomed max_age keep_n now cs =
    filterb (is_stale max_age now) cs
    ++ drop keep_n (sort_slice older (filterb (λ c. not (is_stale max_age now c)) cs))

module _ {ℓ} {C : Type ℓ} (cloud : Cloud C) where
  unfoldable pub delete_candidate : Candidate → Server C → Bool × Server C
  delete_candidate c s =
      let (done, after) = cloud.remove c.id s.cloud in
      if done
      then (
        true,
        drop_conversation c.id (record s { cloud = after; deleted = s.deleted ++ c.id ∷ [] }),
      )
      else (false, record s { cloud = after })

  unfoldable pub delete_candidates : List Candidate → Server C → Bool × Server C
  delete_candidates [] s = (false, s)
  delete_candidates (c ∷ cs) s =
      let (done, next) = delete_candidate c s in
      let (more, last) = delete_candidates cs next in (done || more, last)

  -- One round, with whether another follows.
  abbrev pub round_over :
      ℕ → ℕ → ℕ → Map String Bool → Option (List Chat) → Server C → Bool × Server C
  round_over max_age keep_n now active none s = (false, s)
  round_over max_age keep_n now active (some []) s = (false, s)
  round_over max_age keep_n now active (some (chat ∷ chats)) s =
      delete_candidates (doomed max_age keep_n now (candidates active (chat ∷ chats))) s

  unfoldable pub rounds : ℕ → ℕ → ℕ → ℕ → Map String Bool → Server C → Server C
  rounds zero max_age keep_n now active s = s
  rounds (suc left) max_age keep_n now active s =
      let (again, next) = round_over max_age keep_n now active (cloud.list s.cloud) s in
      let last = rounds left max_age keep_n now active next in if again then last else next

  unfoldable pub auto_cleanup_once : ℕ → ℕ → ℕ → Server C → Server C
  auto_cleanup_once max_age keep_n now s =
      rounds 100 max_age keep_n now (active_conversation_set max_age now s) s
