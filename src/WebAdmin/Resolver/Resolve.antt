-- ===== src/WebAdmin/Resolver/Resolve.antt =====
-- pkg/webadmin/session_resolver.go: `Resolve`. `similarity` is the float64 of `contextSimilarity`
-- and `threshold` its bound, both scaled to whole numbers.
use m365plus.Base.{
  ℕ, String, Bool, true, false, not, ◌&&◌, List, [], ◌∷◌, Option, none, some, ◌==◌, string_eq,
  nat_eq, if◌then◌else◌, ltb, length,
}
use m365plus.Base.Map.{Map, lookup, insert}
use m365plus.WebAdmin.Resolver.Messages.{Message, context_prefix_len}
use m365plus.WebAdmin.Resolver.Bindings.{SessionBinding, SessionResolver, is_past, evict}

-- A session that content matching may reuse: recent enough, of the same address and agent.
abbrev pub is_eligible : ℕ → ℕ → String → SessionBinding → Bool
is_eligible limit now ip s = not (is_past limit now s) && s.ip_fingerprint == ip

-- One step of the loop of `matchContextLocked`, on the best id and its prefix length so far.
unfoldable pub improved :
    ℕ → ℕ → String → List Message → String → SessionBinding → String × ℕ → String × ℕ
improved limit now ip msgs id s best =
    let n = context_prefix_len s.context_history msgs in
    if is_eligible limit now ip s && ltb 1 n && ltb best.1 n then (id, n) else best

unfoldable pub best_prefix :
    ℕ → ℕ → String → List Message → Map String SessionBinding → String × ℕ → String × ℕ
best_prefix limit now ip msgs [] best = best
best_prefix limit now ip msgs ((id, s) ∷ rest) best =
    best_prefix limit now ip msgs rest (improved limit now ip msgs id s best)

unfoldable pub match_context : ℕ → String → List Message → SessionResolver → String × ℕ
match_context now ip [] r = ("", 0)
match_context now ip (m ∷ msgs) r = best_prefix r.context_ttl now ip (m ∷ msgs) r.sessions ("", 0)

pub data MatchedBy : Type 0 where
  nothing : MatchedBy
  explicit : MatchedBy
  context_prefix : ℕ → MatchedBy
  context_similar : ℕ → MatchedBy

pub record ResolveResult : Type 0 where
  pub session_id : String
  pub conversation_id : String
  pub account_id : String
  pub matched_by : MatchedBy
  pub is_new : Bool
  pub history_len : ℕ

abbrev pub new_session : ResolveResult
new_session = record {
  session_id = "";
  conversation_id = "";
  account_id = "";
  matched_by = nothing;
  is_new = true;
  history_len = 0;
}

-- The stored session is touched, and answered.
unfoldable pub reuse :
    String → MatchedBy → ℕ → ℕ → SessionBinding → SessionResolver → ResolveResult × SessionResolver
reuse id by len now s r = (
  record {
    session_id = s.session_id;
    conversation_id = s.conversation_id;
    account_id = s.account_id;
    matched_by = by;
    is_new = false;
    history_len = len;
  },
  record r { sessions = insert id (record s { last_used_at = now }) r.sessions; dirty = true },
)

abbrev pub bind_option : {A B : Type 0} → Option A → (A → Option B) → Option B
bind_option none f = none
bind_option (some a) f = f a

-- The session that the header names: by `byExplicit`, and else by its own id.
unfoldable pub find_explicit : String → SessionResolver → Option (String × SessionBinding)
find_explicit explicit_id r =
    if explicit_id == ""
    then none
    else first_of (bind_option (lookup explicit_id r.by_explicit) stored) (stored explicit_id)
  where
    stored : String → Option (String × SessionBinding)
    stored id = bind_option (lookup id r.sessions) (λ s. some (id, s))

    first_of :
        Option (String × SessionBinding)
        → Option (String × SessionBinding)
        → Option (String × SessionBinding)
    first_of none o = o
    first_of (some e) o = some e

-- The map's zero value is never reached: an id that was matched is in the map.
unfoldable pub reuse_found :
    String
    → MatchedBy
    → ℕ
    → ℕ
    → Option SessionBinding
    → SessionResolver
    → ResolveResult × SessionResolver
reuse_found id by len now none r = (new_session, r)
reuse_found id by len now (some s) r = reuse id by len now s r

module _ (similarity : List Message → List Message → ℕ) where
  -- One step of the loop of the fallback: the most similar eligible session with a history of
  -- two messages or more.
  unfoldable pub more_similar :
      ℕ → ℕ → String → List Message → String → SessionBinding → String × ℕ → String × ℕ
  more_similar limit now ip msgs id s best =
      let sim = similarity s.context_history msgs in
      if is_eligible limit now ip s && not (ltb (length s.context_history) 2) && ltb best.1 sim
      then (id, sim)
      else best

  unfoldable pub best_similar :
      ℕ → ℕ → String → List Message → Map String SessionBinding → String × ℕ → String × ℕ
  best_similar limit now ip msgs [] best = best
  best_similar limit now ip msgs ((id, s) ∷ rest) best =
      best_similar limit now ip msgs rest (more_similar limit now ip msgs id s best)

  module _ (threshold : ℕ) where
    unfoldable pub resolve_similar :
        ℕ → String → List Message → SessionResolver → ResolveResult × SessionResolver
    resolve_similar now ip msgs r =
        let best = best_similar r.context_ttl now ip msgs r.sessions ("", 0) in
        if not (best.0 == "") && not (ltb best.1 threshold)
        then reuse_found best.0 (context_similar best.1) 0 now (lookup best.0 r.sessions) r
        else (new_session, r)

    unfoldable pub resolve_content :
        ℕ → String → List Message → SessionResolver → ResolveResult × SessionResolver
    resolve_content now ip msgs r =
        let best = match_context now ip msgs r in
        if best.0 == ""
        then resolve_similar now ip msgs r
        else reuse_found best.0 (context_prefix best.1) best.1 now (lookup best.0 r.sessions) r

    unfoldable pub resolve_explicit :
        Option (String × SessionBinding)
        → ℕ
        → String
        → List Message
        → SessionResolver
        → ResolveResult × SessionResolver
    resolve_explicit (some (id, s)) now ip msgs r =
        reuse id explicit (length s.context_history) now s r
    resolve_explicit none now ip msgs r = resolve_content now ip msgs r

    unfoldable pub resolve :
        ℕ → String → String → List Message → SessionResolver → ResolveResult × SessionResolver
    resolve now explicit_id ip msgs r =
        let e = evict now r in resolve_explicit (find_explicit explicit_id e) now ip msgs e
