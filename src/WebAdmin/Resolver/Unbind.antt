-- ===== src/WebAdmin/Resolver/Unbind.antt =====
-- pkg/webadmin/session_resolver.go: what `UnbindByConversation` leaves.
use m365plus.Base.{
  String, Bool, false, not, [], ◌∷◌, Option, none, some, ◌==◌, ==_iff, string_eq, if◌then◌else◌,
  ◌≡◌, refl, arith,
}
use m365plus.Base.Map.{Map, lookup, lookup-delete, keep_value, DistinctKeys}
use m365plus.WebAdmin.Resolver.Bindings.{
  SessionBinding, SessionResolver, forget, forget_all, unbind_by_conversation,
}

-- Whether the entry found is of the conversation.
abbrev pub is_of : String → Option SessionBinding → Bool
is_of conversation none = false
is_of conversation (some s) = s.conversation_id == conversation

forget_all-sessions :
    (conversation id : String) (entries : Map String SessionBinding) (r : SessionResolver)
    → DistinctKeys entries
    → lookup id (forget_all conversation entries r).1.sessions
      ≡ (if is_of conversation (lookup id entries) then none else lookup id r.sessions)
unfolding forget_all forget lookup
forget_all-sessions conversation id [] r d = refl
forget_all-sessions conversation id ((j, s) ∷ rest) r d = ground (
  arith,
  ==_iff j id,
  forget_all-sessions conversation id rest r d.1,
  forget_all-sessions conversation id rest (forget j s r) d.1,
  lookup-delete j id r.sessions,
  d.0,
)

-- On a map without a repeated id, `UnbindByConversation` removes the sessions of the conversation
-- and no other.
pub unbind_by_conversation_lem :
    (conversation id : String) (r : SessionResolver)
    → DistinctKeys r.sessions
    → lookup id (unbind_by_conversation conversation r).1.sessions
      ≡ keep_value (λ _ s. not (s.conversation_id == conversation)) id (lookup id r.sessions)
unfolding unbind_by_conversation
unbind_by_conversation_lem conversation id r d =
    ground (arith, forget_all-sessions conversation id r.sessions r d)
