-- ===== src/WebAdmin/Resolver/Safety.antt =====
-- pkg/webadmin/session_resolver.go: which sessions `Resolve` may continue.
use m365plus.Base.{
  ℕ, String, Bool, true, false, not, ◌&&◌, List, [], ◌∷◌, Option, none, some, ◌==◌, ==_iff, ==_refl,
  string_eq, nat_eq, if◌then◌else◌, ltb, length, ◌≡◌, ◌≢◌, ◌⊎◌, refl, ap, sym, ◌∙◌, subst, arith,
  Bool-cases, Option-cases, inl, inr,
}
use m365plus.Base.Map.{Map, lookup, DistinctKeys, lookup-cons_later, delete-DistinctKeys}
use m365plus.WebAdmin.Resolver.Messages.{Message}
use m365plus.WebAdmin.Resolver.Bindings.{
  SessionBinding, SessionResolver, is_past, drop_session, drop_if_past, drop_past, drop_each,
  drop_excess, evict,
}
use m365plus.WebAdmin.Resolver.Resolve.{
  is_eligible, match_context, more_similar, best_similar, MatchedBy, explicit, context_prefix,
  context_similar, ResolveResult, new_session, reuse, reuse_found, find_explicit, resolve_similar,
  resolve_content, resolve_explicit, resolve,
}
use m365plus.WebAdmin.Resolver.Match.{match_context-IsMatch}

drop_if_past-DistinctKeys :
    (now : ℕ) (id : String) (s : SessionBinding) (r : SessionResolver)
    → DistinctKeys r.sessions
    → DistinctKeys (drop_if_past now id s r).sessions
unfolding drop_if_past drop_session
drop_if_past-DistinctKeys now id s r d = elim (Bool-cases (is_past r.ttl now s)) [
  | inl e ↦ rw e (delete-DistinctKeys id r.sessions d)
  | inr e ↦ rw e d
]

drop_past-DistinctKeys :
    (now : ℕ) (entries : Map String SessionBinding) (r : SessionResolver)
    → DistinctKeys r.sessions
    → DistinctKeys (drop_past now entries r).sessions
unfolding drop_past
drop_past-DistinctKeys now [] r d = d
drop_past-DistinctKeys now ((id, s) ∷ rest) r d =
    drop_past-DistinctKeys now rest (drop_if_past now id s r)
      (drop_if_past-DistinctKeys now id s r d)

drop_each-DistinctKeys :
    (entries : Map String SessionBinding) (r : SessionResolver)
    → DistinctKeys r.sessions
    → DistinctKeys (drop_each entries r).sessions
unfolding drop_each drop_session
drop_each-DistinctKeys [] r d = d
drop_each-DistinctKeys ((id, s) ∷ rest) r d =
    drop_each-DistinctKeys rest (drop_session id s r) (delete-DistinctKeys id r.sessions d)

drop_excess-DistinctKeys :
    (r : SessionResolver) → DistinctKeys r.sessions → DistinctKeys (drop_excess r).sessions
unfolding drop_excess
drop_excess-DistinctKeys r d = elim (Bool-cases (ltb r.max_sessions (length r.sessions))) [
  | inl e ↦ rw e (drop_each-DistinctKeys _ r d)
  | inr e ↦ rw e d
]

pub evict-DistinctKeys :
    (now : ℕ) (r : SessionResolver) → DistinctKeys r.sessions → DistinctKeys (evict now r).sessions
unfolding evict
evict-DistinctKeys now r d =
    drop_excess-DistinctKeys (drop_past now r.sessions r)
      (drop_past-DistinctKeys now r.sessions r d)

-- The header, which is not empty, is the id, or the id is indexed under it.
abbrev pub Names : String → SessionResolver → String → Type 0
Names explicit_id r id =
    (explicit_id ≢ "") × ((lookup explicit_id r.by_explicit ≡ some id) ⊎ (id ≡ explicit_id))

-- The answer continues a stored session, which the request's header names or which is recent
-- enough and of the request's address and agent.
abbrev pub Continues : ℕ → String → String → SessionResolver → ResolveResult → Type 0
Continues now explicit_id ip r a =
    (id : String) × (s : SessionBinding) × (lookup id r.sessions ≡ some s)
    × (a.session_id ≡ s.session_id)
    × (a.conversation_id ≡ s.conversation_id)
    × (a.account_id ≡ s.account_id)
    × (((a.matched_by ≡ explicit) × Names explicit_id r id)
        ⊎ (is_eligible r.context_ttl now ip s ≡ true))

-- The id is of a stored session that may be reused.
abbrev IsReusable : ℕ → ℕ → String → Map String SessionBinding → String → Type 0
IsReusable limit now ip m id =
    (s : SessionBinding) × (lookup id m ≡ some s) × (is_eligible limit now ip s ≡ true)

reuse_found-Continues :
    (id explicit_id ip : String) (by : MatchedBy) (len now : ℕ) (r : SessionResolver)
    → IsReusable r.context_ttl now ip r.sessions id
    → Continues now explicit_id ip r (reuse_found id by len now (lookup id r.sessions) r).0
unfolding reuse_found reuse
reuse_found-Continues id explicit_id ip by len now r (s, l, e) =
    (id, s, l, rw l refl, rw l refl, rw l refl, inr e)

abbrev pub IsFair : ℕ → String → String → SessionResolver → ResolveResult → Type 0
IsFair now explicit_id ip r a = (a ≡ new_session) ⊎ Continues now explicit_id ip r a

if-IsFair :
    (now : ℕ) (explicit_id ip : String) (r : SessionResolver) (b : Bool)
    (x y : ResolveResult × SessionResolver)
    → (b ≡ true → IsFair now explicit_id ip r x.0)
    → (b ≡ false → IsFair now explicit_id ip r y.0)
    → IsFair now explicit_id ip r (if b then x else y).0
if-IsFair now explicit_id ip r true x y h k = h refl
if-IsFair now explicit_id ip r false x y h k = k refl

find_explicit_stored :
    (explicit_id : String) (r : SessionResolver) (e : String × SessionBinding)
    → find_explicit explicit_id r ≡ some e
    → (lookup e.0 r.sessions ≡ some e.1) × Names explicit_id r e.0
unfolding find_explicit
find_explicit_stored explicit_id r (id, s) h = (
  ground arith,
  (
    ground (arith, ==_iff explicit_id ""),
    elim (Option-cases (lookup explicit_id r.by_explicit)) [
      | inl e ↦ inr (ground arith)
      | inr (j, e) ↦ elim (Option-cases (lookup j r.sessions)) [
        | inl e' ↦ inr (ground arith)
        | inr (t, e') ↦ inl (e ∙ ground arith)
      ]
    ],
  ),
)

module _ (similarity : List Message → List Message → ℕ) where
  more_similar_source :
      (limit now : ℕ) (ip : String) (msgs : List Message) (id : String) (s : SessionBinding)
      (best : String × ℕ)
      → (more_similar similarity limit now ip msgs id s best ≡ best)
        ⊎ (((more_similar similarity limit now ip msgs id s best).0 ≡ id)
            × (is_eligible limit now ip s ≡ true))
  unfolding more_similar
  more_similar_source limit now ip msgs id s (i, k) = ground arith

  best_similar-IsReusable :
      (limit now : ℕ) (ip : String) (msgs : List Message) (m : Map String SessionBinding)
      (best : String × ℕ)
      → DistinctKeys m
      → ((best_similar similarity limit now ip msgs m best).0 ≡ best.0)
        ⊎ IsReusable limit now ip m (best_similar similarity limit now ip msgs m best).0
  unfolding best_similar lookup
  best_similar-IsReusable limit now ip msgs [] best d = inl refl
  best_similar-IsReusable limit now ip msgs ((id, s) ∷ rest) best d =
      elim (best_similar-IsReusable limit now ip msgs rest
        (more_similar similarity limit now ip msgs id s best) d.1) [
          | inl p ↦ elim (more_similar_source limit now ip msgs id s best) [
            | inl q ↦ inl (p ∙ ap (λ b. b.0) q)
            | inr (q, e) ↦ inr (
                subst (IsReusable limit now ip ((id, s) ∷ rest)) (sym (p ∙ q))
                  (s, rw (==_refl id) refl, e))
          ]
          | inr (t, l, e) ↦ inr (t, lookup-cons_later _ id s t rest d l, e)
        ]

  module _ (threshold : ℕ) where
    resolve_similar-IsFair :
        (now : ℕ) (explicit_id ip : String) (msgs : List Message) (r : SessionResolver)
        → DistinctKeys r.sessions
        → IsFair now explicit_id ip r (resolve_similar similarity threshold now ip msgs r).0
    unfolding resolve_similar
    resolve_similar-IsFair now explicit_id ip msgs r d =
        let best = best_similar similarity r.context_ttl now ip msgs r.sessions ("", 0) in
        if-IsFair now explicit_id ip r (not (best.0 == "") && not (ltb best.1 threshold)) _ _
          (λ c. elim (best_similar-IsReusable r.context_ttl now ip msgs r.sessions ("", 0) d) [
            | inl p ↦ absurd (ground (arith, ==_iff best.0 "", p, c))
            | inr k ↦
                inr (reuse_found-Continues best.0 explicit_id ip (context_similar best.1) 0 now r k)
          ])
          (λ c. inl refl)

    resolve_content-IsFair :
        (now : ℕ) (explicit_id ip : String) (msgs : List Message) (r : SessionResolver)
        → DistinctKeys r.sessions
        → IsFair now explicit_id ip r (resolve_content similarity threshold now ip msgs r).0
    unfolding resolve_content
    resolve_content-IsFair now explicit_id ip msgs r d =
        let best = match_context now ip msgs r in
        if-IsFair now explicit_id ip r (best.0 == "") _ _
          (λ c. resolve_similar-IsFair now explicit_id ip msgs r d)
          (λ c. elim (match_context-IsMatch now ip msgs r d) [
            | inl p ↦ absurd (ground (arith, ==_iff best.0 "", ap (λ b. b.0) p, c))
            | inr (s, l, e, _, n, h) ↦ inr (
                reuse_found-Continues best.0 explicit_id ip (context_prefix best.1) best.1 now r
                  (s, l, e))
          ])

    resolve_explicit-IsFair :
        (o : Option (String × SessionBinding)) (now : ℕ) (explicit_id ip : String)
        (msgs : List Message) (r : SessionResolver)
        → DistinctKeys r.sessions
        → ((e : String × SessionBinding)
            → o ≡ some e
            → (lookup e.0 r.sessions ≡ some e.1) × Names explicit_id r e.0)
        → IsFair now explicit_id ip r (resolve_explicit similarity threshold o now ip msgs r).0
    unfolding resolve_explicit reuse
    resolve_explicit-IsFair none now explicit_id ip msgs r d h =
        resolve_content-IsFair now explicit_id ip msgs r d
    resolve_explicit-IsFair (some (id, s)) now explicit_id ip msgs r d h =
        let (stored, named) = h (id, s) refl in
        inr (id, s, stored, refl, refl, refl, inl (refl, named))

    -- On a map without a repeated id, what `Resolve` answers is a new session, or it continues a
    -- session that was stored and not evicted: one that the request's header names, by its own id
    -- or by the index of such names, or one that is recent enough and of the same address and
    -- agent as the request.
    pub resolve-IsFair :
        (now : ℕ) (explicit_id ip : String) (msgs : List Message) (r : SessionResolver)
        → DistinctKeys r.sessions
        → IsFair now explicit_id ip
            (evict now r)
            (resolve similarity threshold now explicit_id ip msgs r).0
    unfolding resolve
    resolve-IsFair now explicit_id ip msgs r d =
        resolve_explicit-IsFair (find_explicit explicit_id (evict now r)) now explicit_id ip msgs
          (evict now r) (evict-DistinctKeys now r d)
          (find_explicit_stored explicit_id (evict now r))
