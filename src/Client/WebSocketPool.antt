-- ===== src/Client/WebSocketPool.antt =====
-- pkg/client/connpool.go: idle WebSocket connections by key. A connection is a number; `closed`
-- is the log of the connections that were closed, newest first. The head of a list is the back of
-- the Go slice, the connection put last. Times are in seconds.
pub mod Laws
use m365plus.Base.{
  ℕ, suc, ◌+◌, ◌≤◌, ◌<◌, ◌≡◌, refl, sym, ap, ◌∙◌, inl, inr, String, Bool, true, false, List, [],
  ◌∷◌, ◌++◌, append_assoc, reverse, map, Option, none, some, arith, ltb, leb, ◌==◌, ==_iff, ==_refl,
  string_eq, if◌then◌else◌, Bool-cases, Option-cases, length,
}
use m365plus.Base.Map.{Map, lookup, insert, delete, lookup-insert, lookup-delete}

pub record Pooled : Type 0 where
  pub connection : ℕ
  pub returned_at : ℕ

pub record WebSocketPool : Type 0 where
  pub connections : Map String (List Pooled)
  pub closed : List ℕ

abbrev pub max_per_key : ℕ
max_per_key = 2

abbrev pub max_idle : ℕ
max_idle = 25

-- A missing key reads as the empty slice.
unfoldable pub items_of : Option (List Pooled) → List Pooled
items_of none = []
items_of (some items) = items

abbrev pub items : String → WebSocketPool → List Pooled
items key p = items_of (lookup key p.connections)

-- The loop of `take`: the connection found, the items left, and the log.
pub record Taken : Type 0 where
  pub hit : Option ℕ
  pub rest : List Pooled
  pub log : List ℕ

unfoldable pub take_loop : ℕ → List Pooled → List ℕ → Taken
take_loop now [] log = record { hit = none; rest = []; log = log }
take_loop now (item ∷ rest) log =
    let stale = take_loop now rest (item.connection ∷ log) in
    if leb now (item.returned_at + max_idle)
    then record { hit = some item.connection; rest = rest; log = log }
    else stale

unfoldable pub take : String → ℕ → WebSocketPool → Option ℕ × WebSocketPool
take key now p =
    if key == ""
    then (none, p)
    else let t = take_loop now (items key p) p.closed in
      (
        t.hit,
        record {
          connections = elim t.hit [
            | none ↦ delete key p.connections
            | some _ ↦ insert key t.rest p.connections
          ];
          closed = t.log;
        },
      )

-- The deadlines that `put` clears are no state of the pool. `none` is a nil connection.
unfoldable pub put : String → Option ℕ → ℕ → WebSocketPool → WebSocketPool
put key none now p = p
put key (some c) now p =
    if key == ""
    then record p { closed = c ∷ p.closed }
    else if leb max_per_key (length (items key p))
    then record p { closed = c ∷ p.closed }
    else record p {
      connections =
          insert key (record { connection = c; returned_at = now } ∷ items key p) p.connections;
    }

unfoldable pub count : String → WebSocketPool → ℕ
count key p = if key == "" then 0 else length (items key p)

unfoldable pub discard : Option ℕ → WebSocketPool → WebSocketPool
discard none p = p
discard (some c) p = record p { closed = c ∷ p.closed }

-- The loops of `close`; the connections of a key are closed oldest first.
unfoldable pub close_items : List Pooled → List ℕ → List ℕ
close_items [] log = log
close_items (item ∷ rest) log = item.connection ∷ close_items rest log

unfoldable pub close_keys : Map String (List Pooled) → List ℕ → List ℕ
close_keys [] log = log
close_keys ((key, items) ∷ m) log = close_keys m (close_items items log)

unfoldable pub close : WebSocketPool → WebSocketPool
close p = record { connections = []; closed = close_keys p.connections p.closed }
