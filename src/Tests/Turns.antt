-- ===== src/Tests/Turns.antt =====
-- Runs of the theorems on the stores of conversations and sessions.
use m365plus.Base.{
  ℕ, ◌≤◌, ◌≡◌, ◌⊎◌, refl, String, true, false, List, [], ◌∷◌, ◌++◌, none, some, arith, ==_apart,
  string_eq, bytes_eq,
}
use m365plus.Base.Map.{lookup}
use m365plus.WebAdmin.Sessions
use m365plus.WebAdmin.Sessions.Survival.{got, stored, dropped, Event, run_events, get_user-put_user}
use m365plus.WebAdmin.Conversations.{Manager, ManagedConversation, max_age}
use m365plus.WebAdmin.Resolver.Messages.{Message}
use m365plus.WebAdmin.Resolver.Bindings.{
  SessionBinding, SessionResolver, reindex, evict, drop_excess, drop_past, drop_if_past,
}
use m365plus.WebAdmin.Resolver.Turns.{Request, bind, bind_in, bind_unnamed, bind_new, effective_id}
use m365plus.WebAdmin.Resolver.Safety.{IsFair, resolve-IsFair}
use m365plus.WebAdmin.Resolver.Continuity.{match_context-bind}
use m365plus.WebAdmin.Resolver.Resolve.{match_context, resolve}
use m365plus.WebAdmin.Resolver.Match.{IsMatch, match_context-IsMatch, match_context_longest}

abbrev session : Sessions.UserSession
session = record { conversation_id = "c"; session_id = "s"; account_id = "a"; last_used_at = 10 }

abbrev users : Sessions.UserSessionStore
users = record { entries = ("u", session) ∷ []; ttl = 60; dirty = false }

abbrev others : List Event
others = got "w" 40 ∷ stored "w" session ∷ dropped "v" ∷ []

get_user-put_user_example :
    (Sessions.get_user "u" 65 (run_events others (Sessions.put_user "u" session users))).0
    ≡ some (Sessions.touch 65 session)
unfolding lookup
get_user-put_user_example =
    get_user-put_user "u" session 70 65 others users (refl, tt) (omega arith)
      ((==_apart "w" "u" refl, omega arith), (==_apart "w" "u" refl, (==_apart "v" "u" refl, tt)))
      (omega arith)

abbrev talk : String → ManagedConversation
talk id = record { id = id; account_id = "a"; created_at = 1; last_used_at = 5; title = "" }

abbrev manager : Manager
manager = record {
  entries = ("x", talk "x") ∷ ("y", talk "y") ∷ [];
  mode = max_age;
  keep_n = 5;
  age_limit = 10;
  whitelist = ("y", true) ∷ [];
  dirty = false;
}

abbrev message : String → String → Message
message role text = record { role = role; text = text; tool_calls = none }

abbrev dialogue : List Message
dialogue = message "user" "hello" ∷ message "assistant" "hi" ∷ []

abbrev binding : SessionBinding
binding = record {
  session_id = "s";
  conversation_id = "c";
  account_id = "a";
  created_at = 1;
  last_used_at = 5;
  ip_fingerprint = "ip";
  user_field = "";
  context_finger = "";
  context_history = dialogue;
}

abbrev resolver : SessionResolver
resolver = record {
  sessions = ("s", binding) ∷ [];
  by_explicit = [];
  by_user_field = [];
  by_ip_finger = ("ip", "s") ∷ [];
  by_context = [];
  ttl = 60;
  context_ttl = 60;
  max_sessions = 1000;
  dirty = false;
}

abbrev longer : List Message
longer = dialogue ++ message "user" "more" ∷ []

match_context-IsMatch_example :
    (match_context 9 "ip" longer resolver ≡ ("", 0))
    ⊎ IsMatch 60 9 "ip" longer resolver.sessions (match_context 9 "ip" longer resolver)
unfolding lookup
match_context-IsMatch_example = match_context-IsMatch 9 "ip" longer resolver (refl, tt)

match_context_longest_example :
    IsMatch 60 9 "ip" longer resolver.sessions (match_context 9 "ip" longer resolver)
    × (2 ≤ (match_context 9 "ip" longer resolver).1)
unfolding lookup
match_context_longest_example =
    match_context_longest 9 "ip" (message "user" "more" ∷ []) resolver "s" binding (refl, tt) refl
      refl (omega arith)

abbrev no_similarity : List Message → List Message → ℕ
no_similarity a b = 0

resolve-IsFair_example :
    IsFair 9 "s" "ip" (evict 9 resolver) (resolve no_similarity 60 9 "s" "ip" longer resolver).0
unfolding lookup
resolve-IsFair_example = resolve-IsFair no_similarity 60 9 "s" "ip" longer resolver (refl, tt)

abbrev one_finger : List Message → String
one_finger msgs = "f"

abbrev turn : Request
turn = record { explicit_id = ""; ip = "ip"; user = ""; messages = dialogue }

abbrev bound : SessionResolver
bound = bind one_finger turn "u" "" "d" "a" 7 resolver

match_context-bind_example :
    IsMatch bound.context_ttl 9 "ip" longer bound.sessions (match_context 9 "ip" longer bound)
    × (2 ≤ (match_context 9 "ip" longer bound).1)
unfolding bind bind_in bind_unnamed bind_new reindex evict drop_excess drop_past drop_if_past
    effective_id lookup
match_context-bind_example =
    match_context-bind one_finger turn "u" "" "d" "a" 7 9 (message "user" "more" ∷ []) resolver
      (refl, tt) (omega arith) (omega arith)
