-- ===== src/WebAdmin/Resolver/Match.antt =====
-- pkg/webadmin/session_resolver.go: what `matchContextLocked` answers.
use m365plus.Base.{
  ℕ, ◌≤◌, ◌<◌, String, true, List, [], ◌∷◌, ◌++◌, length, some, ==_refl, string_eq, ◌≡◌, ◌⊎◌, refl,
  sym, ap, ◌∙◌, subst, arith, inl, inr,
}
use m365plus.Base.Map.{Map, lookup, DistinctKeys, lookup-cons_cases, lookup-cons_later}
use m365plus.WebAdmin.Resolver.Messages.{Message, context_prefix_len}
use m365plus.WebAdmin.Resolver.Prefix.{
  Repeats, context_prefix_len_nil, context_prefix_len-append, context_prefix_len-Repeats,
}
use m365plus.WebAdmin.Resolver.Bindings.{SessionBinding, SessionResolver}
use m365plus.WebAdmin.Resolver.Resolve.{is_eligible, improved, best_prefix, match_context}

module _ (limit now : ℕ) (ip : String) (msgs : List Message) where
  -- What the loop takes for a match: the id is stored, the session is eligible, and the request
  -- repeats its history of two or more messages, which are as many as the answer says.
  abbrev pub IsMatch : Map String SessionBinding → String × ℕ → Type 0
  IsMatch m (id, n) =
      (s : SessionBinding) × (lookup id m ≡ some s)
      × (is_eligible limit now ip s ≡ true)
      × Repeats s.context_history msgs
      × (n ≡ length s.context_history)
      × (1 < n)

  improved-grows :
      (id : String) (s : SessionBinding) (best : String × ℕ)
      → best.1 ≤ (improved limit now ip msgs id s best).1
  unfolding improved
  improved-grows id s (i, k) = ground arith

  improved-longest :
      (id : String) (s : SessionBinding) (best : String × ℕ)
      → is_eligible limit now ip s ≡ true
      → 1 < context_prefix_len s.context_history msgs
      → context_prefix_len s.context_history msgs ≤ (improved limit now ip msgs id s best).1
  unfolding improved
  improved-longest id s (i, k) e h = ground arith

  improved_source :
      (id : String) (s : SessionBinding) (best : String × ℕ)
      → (improved limit now ip msgs id s best ≡ best)
        ⊎ ((improved limit now ip msgs id s best ≡ (id, context_prefix_len s.context_history msgs))
            × (is_eligible limit now ip s ≡ true)
            × (1 < context_prefix_len s.context_history msgs))
  unfolding improved
  improved_source id s (i, k) = ground arith

  best_prefix-grows :
      (m : Map String SessionBinding) (best : String × ℕ)
      → best.1 ≤ (best_prefix limit now ip msgs m best).1
  unfolding best_prefix
  best_prefix-grows [] best = ground arith
  best_prefix-grows ((id, s) ∷ rest) best = omega (
    arith,
    improved-grows id s best,
    best_prefix-grows rest (improved limit now ip msgs id s best),
  )

  best_prefix-longest :
      (id : String) (s : SessionBinding) (m : Map String SessionBinding) (best : String × ℕ)
      → lookup id m ≡ some s
      → is_eligible limit now ip s ≡ true
      → 1 < context_prefix_len s.context_history msgs
      → context_prefix_len s.context_history msgs ≤ (best_prefix limit now ip msgs m best).1
  unfolding best_prefix lookup
  best_prefix-longest id s [] best l e h = ground arith
  best_prefix-longest id s ((j, t) ∷ rest) best l e h = elim (lookup-cons_cases id j t s rest l) [
    | inl q ↦ omega (
      arith,
      subst
          (λ x. context_prefix_len s.context_history msgs ≤ (improved limit now ip msgs j x best).1)
          (sym q) (improved-longest j s best e h),
      best_prefix-grows rest (improved limit now ip msgs j t best),
    )
    | inr k ↦ best_prefix-longest id s rest (improved limit now ip msgs j t best) k e h
  ]

  later-IsMatch :
      (j : String) (t : SessionBinding) (m : Map String SessionBinding) (best : String × ℕ)
      → DistinctKeys ((j, t) ∷ m)
      → IsMatch m best
      → IsMatch ((j, t) ∷ m) best
  later-IsMatch j t m (id, n) d (s, l, e, more, p, h) =
      (s, lookup-cons_later id j t s m d l, e, more, p, h)

  here-IsMatch :
      (j : String) (t : SessionBinding) (m : Map String SessionBinding)
      → is_eligible limit now ip t ≡ true
      → 1 < context_prefix_len t.context_history msgs
      → IsMatch ((j, t) ∷ m) (j, context_prefix_len t.context_history msgs)
  unfolding lookup
  here-IsMatch j t m e h =
      let (repeats, len) = context_prefix_len-Repeats t.context_history msgs (omega arith) in
      (t, rw (==_refl j) refl, e, repeats, len, h)

  best_prefix-IsMatch :
      (m : Map String SessionBinding) (best : String × ℕ)
      → DistinctKeys m
      → (best_prefix limit now ip msgs m best ≡ best)
        ⊎ IsMatch m (best_prefix limit now ip msgs m best)
  unfolding best_prefix
  best_prefix-IsMatch [] best d = inl refl
  best_prefix-IsMatch ((j, t) ∷ m) best d =
      elim (best_prefix-IsMatch m (improved limit now ip msgs j t best) d.1) [
        | inl p ↦ elim (improved_source j t best) [
          | inl q ↦ inl (p ∙ q)
          | inr (q, e, h) ↦
              inr (subst (IsMatch ((j, t) ∷ m)) (sym (p ∙ q)) (here-IsMatch j t m e h))
        ]
        | inr k ↦ inr (later-IsMatch j t m _ d k)
      ]

-- On a map without a repeated id, `matchContextLocked` answers nothing, ("", 0), or a stored
-- session that is recent enough, of the same address and agent, whose history of two or more
-- messages the request begins with or consists of, with the number of them. Messages are the same
-- if their roles, texts and tool calls are, the ids of the calls aside.
pub match_context-IsMatch :
    (now : ℕ) (ip : String) (msgs : List Message) (r : SessionResolver)
    → DistinctKeys r.sessions
    → (match_context now ip msgs r ≡ ("", 0))
      ⊎ IsMatch r.context_ttl now ip msgs r.sessions (match_context now ip msgs r)
unfolding match_context
match_context-IsMatch now ip [] r d = inl refl
match_context-IsMatch now ip (m ∷ msgs) r d =
    best_prefix-IsMatch r.context_ttl now ip (m ∷ msgs) r.sessions ("", 0) d

match_context-ge :
    (now : ℕ) (ip : String) (msgs : List Message) (r : SessionResolver) (id : String)
    (s : SessionBinding)
    → lookup id r.sessions ≡ some s
    → is_eligible r.context_ttl now ip s ≡ true
    → 1 < context_prefix_len s.context_history msgs
    → context_prefix_len s.context_history msgs ≤ (match_context now ip msgs r).1
unfolding match_context
match_context-ge now ip [] r id s l e h = ground (arith, context_prefix_len_nil s.context_history)
match_context-ge now ip (m ∷ msgs) r id s l e h =
    best_prefix-longest r.context_ttl now ip (m ∷ msgs) id s r.sessions ("", 0) l e h

-- On a map without a repeated id, if the request begins with the history, of two or more messages,
-- of a stored session that is recent enough and of the same address and agent, then
-- `matchContextLocked` answers such a session, and none such has a history longer than the one
-- answered.
pub match_context_longest :
    (now : ℕ) (ip : String) (more : List Message) (r : SessionResolver) (id : String)
    (s : SessionBinding)
    → DistinctKeys r.sessions
    → lookup id r.sessions ≡ some s
    → is_eligible r.context_ttl now ip s ≡ true
    → 1 < length s.context_history
    → let best = match_context now ip (s.context_history ++ more) r in
      IsMatch r.context_ttl now ip (s.context_history ++ more) r.sessions best
      × (length s.context_history ≤ best.1)
match_context_longest now ip more r id s d l e h =
    let msgs = s.context_history ++ more in
    let same = context_prefix_len-append s.context_history more in
    let long = match_context-ge now ip msgs r id s l e (omega (arith, same)) in
    elim (match_context-IsMatch now ip msgs r d) [
      | inl none_found ↦ absurd (omega (arith, same, ap (λ (b : String × ℕ). b.1) none_found))
      | inr found ↦ (found, omega (arith, same))
    ]
