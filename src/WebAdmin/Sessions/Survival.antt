-- ===== src/WebAdmin/Sessions/Survival.antt =====
-- pkg/webadmin/sessions.go: how long a user's session lives.
use m365plus.Base.{
  ℕ, ◌+◌, ◌≤◌, ◌<◌, String, false, not, List, [], ◌∷◌, Option, none, some, ◌==◌, string_eq, nat_eq,
  ==_iff, if◌then◌else◌, lt→ltb, ◌≡◌, ◌≢◌, ◌∙◌, arith, Bool-cases, inl, inr,
}
use m365plus.Base.Map.{
  lookup, keep_entries, keep_value, DistinctKeys, lookup-insert, lookup-insert_self, lookup-delete,
  lookup-keep_entries, insert-DistinctKeys, delete-DistinctKeys, keep_entries-DistinctKeys,
}
use m365plus.WebAdmin.Sessions.{
  UserSession, UserSessionStore, is_stale, evict, touch, touch_found, get_user, put_user,
  delete_user,
}

-- What other requests do with the store between two of a user's own.
pub data Event : Type 0 where
  got : String → ℕ → Event
  stored : String → UserSession → Event
  dropped : String → Event

abbrev pub event_step : Event → UserSessionStore → UserSessionStore
event_step (got user now) s = (get_user user now s).1
event_step (stored user v) s = put_user user v s
event_step (dropped user) s = delete_user user s

abbrev pub run_events : List Event → UserSessionStore → UserSessionStore
run_events [] s = s
run_events (e ∷ es) s = run_events es (event_step e s)

-- The event is another user's, and no later than the time.
abbrev pub Spares : String → ℕ → Event → Type 0
Spares user end (got other now) = (other ≢ user) × (now ≤ end)
Spares user end (stored other v) = other ≢ user
Spares user end (dropped other) = other ≢ user

abbrev pub AllSpare : String → ℕ → List Event → Type 0
AllSpare user end [] = Unit
AllSpare user end (e ∷ es) = Spares user end e × AllSpare user end es

lookup-evict :
    (user : String) (now : ℕ) (s : UserSessionStore)
    → DistinctKeys s.entries
    → lookup user (evict now s).entries ≡ (
        if s.ttl == 0
        then lookup user s.entries
        else keep_value (λ _ v. not (is_stale s.ttl now v)) user (lookup user s.entries))
unfolding evict
lookup-evict user now s d =
    ground (arith, lookup-keep_entries (λ _ v. not (is_stale s.ttl now v)) user s.entries d)

-- The user's session `v` is in the store, which will not drop it up to `end`.
abbrev pub Holds : String → UserSession → ℕ → UserSessionStore → Type 0
Holds user v end s =
    (lookup user s.entries ≡ some v) × DistinctKeys s.entries × (end ≤ v.last_used_at + s.ttl)

evict-Holds :
    (user : String) (v : UserSession) (end now : ℕ) (s : UserSessionStore)
    → now ≤ end
    → Holds user v end s
    → Holds user v end (evict now s)
unfolding evict is_stale
evict-Holds user v end now s h (l, d, t) = elim (Bool-cases (s.ttl == 0)) [
  | inl e ↦ rw e (l, d, t)
  | inr e ↦
      rw e (look e, keep_entries-DistinctKeys (λ _ v. not (is_stale s.ttl now v)) s.entries d, t)
]
  where
    look :
        (s.ttl == 0) ≡ false
        → lookup user (keep_entries (λ _ v. not (is_stale s.ttl now v)) s.entries) ≡ some v
    look e = lookup-keep_entries (λ _ v. not (is_stale s.ttl now v)) user s.entries d ∙ ground arith

touch_found-Holds :
    (user : String) (v : UserSession) (end : ℕ) (other : String) (now : ℕ) (o : Option UserSession)
    (s : UserSessionStore)
    → other ≢ user
    → Holds user v end s
    → Holds user v end (touch_found other now o s).1
unfolding touch_found
touch_found-Holds user v end other now none s h k = k
touch_found-Holds user v end other now (some w) s h (l, d, t) = (
  lookup-insert other user (touch now w) s.entries ∙ ground (arith, ==_iff other user),
  insert-DistinctKeys other (touch now w) s.entries d,
  t,
)

step-Holds :
    (user : String) (v : UserSession) (end : ℕ) (e : Event) (s : UserSessionStore)
    → Spares user end e
    → Holds user v end s
    → Holds user v end (event_step e s)
unfolding put_user delete_user get_user
step-Holds user v end (got other now) s (h, t) k =
    touch_found-Holds user v end other now (lookup other (evict now s).entries) (evict now s) h
      (evict-Holds user v end now s t k)
step-Holds user v end (stored other w) s h (l, d, t) = (
  lookup-insert other user w s.entries ∙ ground (arith, ==_iff other user),
  insert-DistinctKeys other w s.entries d,
  t,
)
step-Holds user v end (dropped other) s h (l, d, t) = (
  lookup-delete other user s.entries ∙ ground (arith, ==_iff other user),
  delete-DistinctKeys other s.entries d,
  t,
)

run-Holds :
    (user : String) (v : UserSession) (end : ℕ) (es : List Event) (s : UserSessionStore)
    → AllSpare user end es
    → Holds user v end s
    → Holds user v end (run_events es s)
run-Holds user v end [] s h k = k
run-Holds user v end (e ∷ es) s (h, hs) k =
    run-Holds user v end es (event_step e s) hs (step-Holds user v end e s h k)

get-Holds :
    (user : String) (v : UserSession) (end now : ℕ) (s : UserSessionStore)
    → now ≤ end
    → Holds user v end s
    → (get_user user now s).0 ≡ some (touch now v)
unfolding get_user touch_found
get-Holds user v end now s t k = rw ((evict-Holds user v end now s t k).0)

-- On a store without a repeated user, a session that `Put` stored is what `Get` answers, touched,
-- up to its time to live, whatever other users' requests came between.
pub get_user-put_user :
    (user : String) (v : UserSession) (end now : ℕ) (es : List Event) (s : UserSessionStore)
    → DistinctKeys s.entries
    → end ≤ v.last_used_at + s.ttl
    → AllSpare user end es
    → now ≤ end
    → (get_user user now (run_events es (put_user user v s))).0 ≡ some (touch now v)
get_user-put_user user v end now es s d t h n =
    get-Holds user v end now (run_events es (put_user user v s)) n (
      run-Holds user v end es (put_user user v s) h (
        unfold put_user in
        (lookup-insert_self user v s.entries, insert-DistinctKeys user v s.entries d, t)))

-- On a store without a repeated user and with a time to live, `Get` never answers a session
-- unused for longer than that, and removes it.
pub get_user_stale :
    (user : String) (v : UserSession) (now : ℕ) (s : UserSessionStore)
    → DistinctKeys s.entries
    → lookup user s.entries ≡ some v
    → 0 < s.ttl
    → v.last_used_at + s.ttl < now
    → ((get_user user now s).0 ≡ none) × (lookup user (get_user user now s).1.entries ≡ none)
unfolding get_user touch_found is_stale
get_user_stale user v now s d l t h = (rw gone, rw gone (gone))
  where
    gone : lookup user (evict now s).entries ≡ none
    gone =
        lookup-evict user now s d
        ∙ rw l (ground (arith, ==_iff s.ttl 0, lt→ltb (v.last_used_at + s.ttl) now h))
