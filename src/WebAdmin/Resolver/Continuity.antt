-- ===== src/WebAdmin/Resolver/Continuity.antt =====
-- pkg/webadmin/session_resolver.go: what `Bind` stores, and that the next turn finds it.
use m365plus.Base.{
  ℕ, ◌+◌, ◌≤◌, ◌<◌, String, List, [], ◌∷◌, ◌++◌, Option, none, some, ◌==◌, ==_iff, string_eq,
  length, ◌≡◌, refl, sym, ◌∙◌, subst, on_both, on_each, arith,
}
use m365plus.Base.Map.{
  Map, lookup, insert, lookup-insert, lookup-insert_self, DistinctKeys, insert-DistinctKeys,
}
use m365plus.WebAdmin.Resolver.Messages.{Message}
use m365plus.WebAdmin.Resolver.Bindings.{SessionBinding, SessionResolver, reindex, evict}
use m365plus.WebAdmin.Resolver.Turns.{
  Request, refreshed, store, effective_id, new_binding, bind_new, bind_known, bind_unnamed, bind_in,
  bind,
}
use m365plus.WebAdmin.Resolver.Resolve.{match_context}
use m365plus.WebAdmin.Resolver.Match.{IsMatch, match_context_longest}
use m365plus.WebAdmin.Resolver.Safety.{evict-DistinctKeys}

-- The session under the id holds the turn: its conversation, account, address and messages, and
-- the time of the turn.
abbrev pub Holds : Request → String → String → String → ℕ → SessionResolver → Type 0
Holds q id conversation account now r =
    (s : SessionBinding) × (lookup id r.sessions ≡ some s)
    × (s.conversation_id ≡ conversation)
    × (s.account_id ≡ account)
    × (s.last_used_at ≡ now)
    × (s.ip_fingerprint ≡ q.ip)
    × (s.context_history ≡ q.messages)

store-lookup :
    (id : String) (s : SessionBinding) (r : SessionResolver)
    → lookup id (store id s r).sessions ≡ some s
unfolding store reindex
store-lookup id s r =
    lookup-insert s.session_id id s (insert id s r.sessions)
    ∙ ground (arith, lookup-insert_self id s r.sessions)

reindex-DistinctKeys :
    (s : SessionBinding) (r : SessionResolver)
    → DistinctKeys r.sessions
    → DistinctKeys (reindex s r).sessions
unfolding reindex
reindex-DistinctKeys s r d = insert-DistinctKeys s.session_id s r.sessions d

store-DistinctKeys :
    (id : String) (s : SessionBinding) (r : SessionResolver)
    → DistinctKeys r.sessions
    → DistinctKeys (store id s r).sessions
unfolding store
store-DistinctKeys id s r d =
    reindex-DistinctKeys s (record r { sessions = insert id s r.sessions })
      (insert-DistinctKeys id s r.sessions d)

-- The turn is held, on a map without a repeated id.
abbrev Kept : Request → String → String → ℕ → SessionResolver → Type 0
Kept q conversation account now r =
    DistinctKeys r.sessions × ((key : String) × Holds q key conversation account now r)

held-IsMatch :
    (id conversation account : String) (now later : ℕ) (more : List Message) (r : SessionResolver)
    (q : Request)
    → DistinctKeys r.sessions
    → Holds q id conversation account now r
    → 1 < length q.messages
    → later ≤ now + r.context_ttl
    → let best = match_context later q.ip (q.messages ++ more) r in
      IsMatch r.context_ttl later q.ip (q.messages ++ more) r.sessions best
      × (length q.messages ≤ best.1)
held-IsMatch id conversation account now later more r q d (s, l, c, a, t, ip, m) long soon =
    subst
      (λ msgs.
        IsMatch r.context_ttl later q.ip (msgs ++ more) r.sessions
          (match_context later q.ip (msgs ++ more) r)
        × (length msgs ≤ (match_context later q.ip (msgs ++ more) r).1))
      m
      (match_context_longest later q.ip more r id s d l
        (ground (arith, ==_iff s.ip_fingerprint q.ip, t, ip, soon))
        (subst (λ msgs. 1 < length msgs) (sym m) long))

module _ (fingerprint : List Message → String) where
  bind_new-Kept :
      (q : Request) (id conversation account : String) (now : ℕ) (r : SessionResolver)
      → DistinctKeys r.sessions
      → Kept q conversation account now (bind_new fingerprint q id conversation account now r)
  unfolding bind_new new_binding reindex
  bind_new-Kept q id conversation account now r d = (
    reindex-DistinctKeys (new_binding fingerprint q id conversation account now) r d,
    (
      id,
      (
        new_binding fingerprint q id conversation account now,
        lookup-insert_self id (new_binding fingerprint q id conversation account now) r.sessions,
        refl,
        refl,
        refl,
        refl,
        refl,
      ),
    ),
  )

  stored-Kept :
      (q : Request) (id conversation account : String) (now : ℕ) (s : SessionBinding)
      (r : SessionResolver)
      → s.conversation_id ≡ conversation
      → DistinctKeys r.sessions
      → Kept q conversation account now (store id (refreshed fingerprint q account now s) r)
  unfolding refreshed
  stored-Kept q id conversation account now s r same d =
      let t = refreshed fingerprint q account now s in
      (store-DistinctKeys id t r d, (id, (t, store-lookup id t r, same, refl, refl, refl, refl)))

  bind_known-Kept :
      (q : Request) (id conversation account : String) (now : ℕ) (o : Option SessionBinding)
      (r : SessionResolver)
      → DistinctKeys r.sessions
      → Kept q conversation account now (bind_known fingerprint q id conversation account now o r)
  unfolding bind_known refreshed
  bind_known-Kept q id conversation account now none r d =
      bind_new-Kept q id conversation account now r d
  bind_known-Kept q id conversation account now (some s) r d =
      stored-Kept q id conversation account now (record s { conversation_id = conversation }) r refl
        d

  bind_unnamed-Kept :
      (q : Request) (fresh conversation account : String) (now : ℕ)
      (entries : Map String SessionBinding) (r : SessionResolver)
      → DistinctKeys r.sessions
      → Kept q conversation account now
          (bind_unnamed fingerprint q fresh conversation account now entries r)
  unfolding bind_unnamed
  bind_unnamed-Kept q fresh conversation account now [] r d =
      bind_new-Kept q fresh conversation account now r d
  bind_unnamed-Kept q fresh conversation account now ((id, s) ∷ rest) r d =
      on_each (Kept q conversation account now) (s.conversation_id == conversation)
        (λ same.
          stored-Kept q id conversation account now s r
            ((==_iff s.conversation_id conversation).0 same) d)
        (λ other. bind_unnamed-Kept q fresh conversation account now rest r d)

  -- `Bind` stores the turn, under the session's id, the header's, that of a session of the
  -- conversation or a new one.
  bind-Kept :
      (q : Request) (fresh id conversation account : String) (now : ℕ) (r : SessionResolver)
      → DistinctKeys r.sessions
      → Kept q conversation account now (bind fingerprint q fresh id conversation account now r)
  unfolding bind bind_in
  bind-Kept q fresh id conversation account now r d =
      let t = evict now r in
      let key = effective_id q id in
      let clean = evict-DistinctKeys now r d in
      on_both (Kept q conversation account now) (key == "")
        (bind_unnamed-Kept q fresh conversation account now t.sessions t clean)
        (bind_known-Kept q key conversation account now (lookup key t.sessions) t clean)

  -- On a map without a repeated id, the turn after one that was bound, of two messages or more,
  -- under any id or none, is matched: a request of the same address and agent that begins with
  -- its messages, within the time for contexts, is answered a stored session that is recent
  -- enough and of that address and agent, whose history the request begins with, and that history
  -- is at least as long as those messages.
  pub match_context-bind :
      (q : Request) (fresh id conversation account : String) (now later : ℕ) (more : List Message)
      (r : SessionResolver)
      → DistinctKeys r.sessions
      → 1 < length q.messages
      → later ≤ now + (bind fingerprint q fresh id conversation account now r).context_ttl
      → let after = bind fingerprint q fresh id conversation account now r in
        let best = match_context later q.ip (q.messages ++ more) after in
        IsMatch after.context_ttl later q.ip (q.messages ++ more) after.sessions best
        × (length q.messages ≤ best.1)
  match_context-bind q fresh id conversation account now later more r d long soon =
      let (clean, (key, held)) = bind-Kept q fresh id conversation account now r d in
      held-IsMatch key conversation account now later more
        (bind fingerprint q fresh id conversation account now r) q clean held long soon
