-- ===== src/Client/WebSocketPool/Laws.antt =====
-- pkg/client/connpool.go: which connection `take` answers, what becomes of the others, and the
-- limit on a key.
use m365plus.Base.{
  ℕ, ◌+◌, ◌≤◌, ◌<◌, ◌≡◌, ◌≢◌, refl, ap, ◌∙◌, inl, inr, String, Bool, true, false, List, [], ◌∷◌,
  ◌++◌, Option, none, some, arith, ltb, leb, ==_iff, string_eq, Bool-cases, length,
}
use m365plus.Base.Map.{lookup, lookup-insert, lookup-delete, lookup-insert_self, lookup-delete_self}
use m365plus.Client.WebSocketPool.{
  Pooled, WebSocketPool, max_per_key, max_idle, items_of, items, take_loop, take, put, close,
}

abbrev pub is_stale : ℕ → Pooled → Bool
is_stale now i = ltb (i.returned_at + max_idle) now

abbrev pub AllStale : ℕ → List Pooled → Type 0
AllStale now [] = Unit {0}
AllStale now (i ∷ is) = (is_stale now i ≡ true) × AllStale now is

-- The connections of a list, onto a log, in the order in which they are closed.
abbrev pub close_onto : List Pooled → List ℕ → List ℕ
close_onto [] log = log
close_onto (i ∷ is) log = close_onto is (i.connection ∷ log)

-- The first connection that is not stale, and those behind it.
abbrev pub TakesFrom : ℕ → List Pooled → Option ℕ → List Pooled → Type 0
TakesFrom now [] hit rest = (hit ≡ none) × (rest ≡ [])
TakesFrom now (i ∷ is) hit rest = (is_stale now i ≡ false) × (hit ≡ some i.connection) × (rest ≡ is)

take_loop_lem :
    (now : ℕ) (is : List Pooled) (log : List ℕ)
    → let t = take_loop now is log in
      (stale : List Pooled) × (fresh : List Pooled) × (is ≡ stale ++ fresh)
      × AllStale now stale
      × (t.log ≡ close_onto stale log)
      × TakesFrom now fresh t.hit t.rest
unfolding take_loop
take_loop_lem now [] log = ([], [], refl, tt, refl, (refl, refl))
take_loop_lem now (i ∷ is) log = elim (Bool-cases (leb now (i.returned_at + max_idle))) [
  | inl good ↦ ([], i ∷ is, refl, tt, rw good, (ground arith, rw good, rw good))
  | inr old ↦
      let (stale, fresh, split, all, closed, takes) = take_loop_lem now is (i.connection ∷ log) in
      (i ∷ stale, fresh, ap (◌∷◌ i) split, (ground arith, all), rw old closed, rw old takes)
]

take_loop-none :
    (now : ℕ) (is : List Pooled) (log : List ℕ)
    → (take_loop now is log).hit ≡ none
    → (take_loop now is log).rest ≡ []
unfolding take_loop
take_loop-none now [] log h = refl
take_loop-none now (i ∷ is) log h = ground (arith, take_loop-none now is (i.connection ∷ log))

-- What `take` answers and leaves, in terms of its loop.
take_parts :
    (key : String) (now : ℕ) (p : WebSocketPool)
    → key ≢ ""
    → let t = take_loop now (items key p) p.closed in
      let (hit, q) = take key now p in (hit ≡ t.hit) × (items key q ≡ t.rest) × (q.closed ≡ t.log)
unfolding take items_of
take_parts key now p ne =
    let t = take_loop now (items key p) p.closed in
    ground (
      arith,
      ==_iff key "",
      take_loop-none now (items key p) p.closed,
      lookup-insert_self key t.rest p.connections,
      lookup-delete_self key p.connections,
    )

-- `take` on a key that is not empty goes from the connection of the key that was put last to the
-- first that has not been idle for too long, which it answers: it closes exactly those above that
-- one, all of them idle for too long, and keeps those below it, however long they have been idle.
pub take_lem :
    (key : String) (now : ℕ) (p : WebSocketPool)
    → key ≢ ""
    → let (hit, q) = take key now p in
      (stale : List Pooled) × (fresh : List Pooled) × (items key p ≡ stale ++ fresh)
      × AllStale now stale
      × (q.closed ≡ close_onto stale p.closed)
      × TakesFrom now fresh hit (items key q)
take_lem key now p ne =
    let (stale, fresh, split, all, closed, takes) = take_loop_lem now (items key p) p.closed in
    let (hit, left, log) = take_parts key now p ne in
    (stale, fresh, split, all, log ∙ closed, rw (hit, left) takes)

-- No key has more connections than the limit.
abbrev pub IsBounded : WebSocketPool → Type 0
IsBounded p = (key : String) → length (items key p) ≤ max_per_key

put-IsBounded :
    (key : String) (c : Option ℕ) (now : ℕ) (p : WebSocketPool)
    → IsBounded p
    → IsBounded (put key c now p)
unfolding put items_of
put-IsBounded key none now p b k = b k
put-IsBounded key (some c) now p b k =
    let item : Pooled = record { connection = c; returned_at = now } in
    ground (arith, b k, b key, lookup-insert key k (item ∷ items key p) p.connections)

take_loop-length :
    (now : ℕ) (is : List Pooled) (log : List ℕ) → length (take_loop now is log).rest ≤ length is
unfolding take_loop
take_loop-length now [] log = omega arith
take_loop-length now (i ∷ is) log = ground (arith, take_loop-length now is (i.connection ∷ log))

take-IsBounded :
    (key : String) (now : ℕ) (p : WebSocketPool) → IsBounded p → IsBounded (take key now p).1
unfolding take items_of
take-IsBounded key now p b k =
    let t = take_loop now (items key p) p.closed in
    ground (
      arith,
      b k,
      b key,
      take_loop-length now (items key p) p.closed,
      lookup-insert key k t.rest p.connections,
      lookup-delete key k p.connections,
    )

-- The calls on a pool, in any order and at any times.
pub data Call : Type 0 where
  takes : String → ℕ → Call
  puts : String → Option ℕ → ℕ → Call
  closes : Call

unfoldable pub step : WebSocketPool → Call → WebSocketPool
step p (takes key now) = (take key now p).1
step p (puts key c now) = put key c now p
step p closes = close p

unfoldable pub run : WebSocketPool → List Call → WebSocketPool
run p [] = p
run p (c ∷ cs) = run (step p c) cs

step-IsBounded : (p : WebSocketPool) (c : Call) → IsBounded p → IsBounded (step p c)
unfolding step
step-IsBounded p (takes key now) b = take-IsBounded key now p b
step-IsBounded p (puts key c now) b = put-IsBounded key c now p b
step-IsBounded p closes b = λ k. unfold close items_of lookup in omega arith

-- However it is used, a pool never holds more than two idle connections for a key.
pub run-IsBounded : (p : WebSocketPool) (cs : List Call) → IsBounded p → IsBounded (run p cs)
unfolding run
run-IsBounded p [] b = b
run-IsBounded p (c ∷ cs) b = run-IsBounded (step p c) cs (step-IsBounded p c b)

put_parts :
    (key : String) (c now : ℕ) (p : WebSocketPool)
    → key ≢ ""
    → length (items key p) < max_per_key
    → let q = put key (some c) now p in
      (items key q ≡ record { connection = c; returned_at = now } ∷ items key p)
      × (q.closed ≡ p.closed)
unfolding put items_of
put_parts key c now p ne room =
    let item : Pooled = record { connection = c; returned_at = now } in
    ground (arith, ==_iff key "", lookup-insert_self key (item ∷ items key p) p.connections)

take_loop-head :
    (later c now : ℕ) (is : List Pooled) (log : List ℕ)
    → later ≤ now + max_idle
    → take_loop later (record { connection = c; returned_at = now } ∷ is) log
      ≡ record { hit = some c; rest = is; log = log }
unfolding take_loop
take_loop-head later c now is log young = ground arith

-- A connection put under a key with room is the next one that the key gives, while it is young
-- enough, and then the key has the connections that it had before.
pub take-put :
    (key : String) (c now later : ℕ) (p : WebSocketPool)
    → key ≢ ""
    → length (items key p) < max_per_key
    → later ≤ now + max_idle
    → let (hit, q) = take key later (put key (some c) now p) in
      (hit ≡ some c) × (items key q ≡ items key p) × (q.closed ≡ p.closed)
take-put key c now later p ne room young =
    let q = put key (some c) now p in
    let (held, log) = put_parts key c now p ne room in
    let (hit, left, log') = take_parts key later q ne in
    let t = take_loop-head later c now (items key p) q.closed young in
    (hit ∙ rw (held, t), left ∙ rw (held, t), log' ∙ rw (held, t) log)
