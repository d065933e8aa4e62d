-- ===== src/WebAdmin/Resolver/Turns.antt =====
-- pkg/webadmin/session_resolver.go: `Bind`. `fingerprint` is `contextFingerprint` (SHA-256 over the
-- last messages); a new uuid enters as `fresh`.
use m365plus.Base.{
  ℕ, String, true, not, ◌&&◌, List, [], ◌∷◌, Option, none, some, ◌==◌, string_eq, nat_eq,
  if◌then◌else◌,
}
use m365plus.Base.Map.{Map, lookup, insert}
use m365plus.WebAdmin.Resolver.Messages.{Message}
use m365plus.WebAdmin.Resolver.Bindings.{SessionBinding, SessionResolver, reindex, evict}

-- A request, as `Bind` and `Resolve` read it: its header `X-M365-Session-Id`, its
-- `clientIPFingerprint`, and of its body the user and the messages.
pub record Request : Type 0 where
  pub explicit_id : String
  pub ip : String
  pub user : String
  pub messages : List Message

unfoldable pub store : String → SessionBinding → SessionResolver → SessionResolver
store id s r =
    let t = record r { sessions = insert id s r.sessions } in record (reindex s t) { dirty = true }

-- The session that `Bind` is about: the one named, or else the one of the header.
unfoldable pub effective_id : Request → String → String
effective_id q id = if not (q.explicit_id == "") && id == "" then q.explicit_id else id

module _ (fingerprint : List Message → String) where
  -- The fields that every branch of `Bind` writes.
  unfoldable pub refreshed : Request → String → ℕ → SessionBinding → SessionBinding
  refreshed q account now s = record s {
    account_id = account;
    last_used_at = now;
    user_field = q.user;
    ip_fingerprint = q.ip;
    context_finger = fingerprint q.messages;
    context_history = q.messages;
  }

  unfoldable pub new_binding : Request → String → String → String → ℕ → SessionBinding
  new_binding q id conversation account now = record {
    session_id = id;
    conversation_id = conversation;
    account_id = account;
    created_at = now;
    last_used_at = now;
    ip_fingerprint = q.ip;
    user_field = q.user;
    context_finger = fingerprint q.messages;
    context_history = q.messages;
  }

  unfoldable pub bind_new :
      Request → String → String → String → ℕ → SessionResolver → SessionResolver
  bind_new q id conversation account now r =
      record (reindex (new_binding q id conversation account now) r) { dirty = true }

  unfoldable pub bind_known :
      Request
      → String
      → String
      → String
      → ℕ
      → Option SessionBinding
      → SessionResolver
      → SessionResolver
  bind_known q id conversation account now none r = bind_new q id conversation account now r
  bind_known q id conversation account now (some s) r =
      store id (record (refreshed q account now s) { conversation_id = conversation }) r

  -- The loop over the sessions for one of the conversation.
  unfoldable pub bind_unnamed :
      Request
      → String
      → String
      → String
      → ℕ
      → Map String SessionBinding
      → SessionResolver
      → SessionResolver
  bind_unnamed q fresh conversation account now [] r = bind_new q fresh conversation account now r
  bind_unnamed q fresh conversation account now ((id, s) ∷ rest) r =
      let other = bind_unnamed q fresh conversation account now rest r in
      if s.conversation_id == conversation then store id (refreshed q account now s) r else other

  unfoldable pub bind_in :
      Request → String → String → String → String → ℕ → SessionResolver → SessionResolver
  bind_in q fresh id conversation account now r =
      if id == ""
      then bind_unnamed q fresh conversation account now r.sessions r
      else bind_known q id conversation account now (lookup id r.sessions) r

  unfoldable pub bind :
      Request → String → String → String → String → ℕ → SessionResolver → SessionResolver
  bind q fresh id conversation account now r =
      bind_in q fresh (effective_id q id) conversation account now (evict now r)
