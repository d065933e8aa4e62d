-- ===== src/Tests/Proxies.antt =====
-- Runs of the theorems on the proxy pool and on the pool of connections.
use m365plus.Base.{
  ℕ, ◌+◌, ◌≡◌, refl, String, false, List, [], ◌∷◌, ◌++◌, none, some, arith, ==_apart, ◌==◌,
  string_eq, if◌then◌else◌,
}
use m365plus.Base.Map.{lookup}
use m365plus.Outbound.{
  Entry, Pool, Result, ok, err, fresh_entry, pick, mark, mark_entry, update_first, first_round,
}
use m365plus.Outbound.Rotation.{Turn, pick-Turn}
use m365plus.Outbound.Retry.{Request, panicked, round_trip, round_trip_panics}
use m365plus.Client.WebSocketPool.{Pooled, WebSocketPool, items, items_of, take}
use m365plus.Client.WebSocketPool.Laws.{
  AllStale, close_onto, TakesFrom, take_lem, IsBounded, Call, takes, puts, closes, run,
  run-IsBounded,
}

abbrev first_proxy : Entry ℕ
first_proxy = fresh_entry "a" 0

abbrev second_proxy : Entry ℕ
second_proxy = fresh_entry "b" 1

abbrev proxies : Pool ℕ
proxies = record { entries = first_proxy ∷ second_proxy ∷ []; next = 1 }

abbrev raws : List String
raws = "a" ∷ "" ∷ "b" ∷ "a" ∷ []

abbrev dial : String → Result ℕ
dial v = if v == "a" then ok 0 else ok 1

abbrev started : Pool ℕ
started = record { entries = first_proxy ∷ second_proxy ∷ []; next = 0 }

abbrev bad_gateway : ℕ → Result ℕ
bad_gateway c = ok 502

abbrev broken : ℕ → ℕ → Result ℕ
broken n c = err "no route"

abbrev ticks : ℕ → ℕ
ticks n = 10 + n

abbrev bodiless : Request
bodiless = record { has_body = false; get_body = none }

pick-Turn_example : (i : ℕ) × Turn proxies 5 i
pick-Turn_example = pick-Turn proxies 5 (omega arith)

round_trip_panics_example : (round_trip broken ticks bodiless second_proxy started).0 ≡ panicked
unfolding pick mark mark_entry update_first first_round
round_trip_panics_example =
    round_trip_panics broken ticks bodiless second_proxy first_proxy started "no route" refl refl
      refl refl (==_apart "a" "b" refl)

abbrev young : Pooled
young = record { connection = 1; returned_at = 90 }

abbrev old : Pooled
old = record { connection = 2; returned_at = 10 }

abbrev connections : WebSocketPool
connections = record { connections = ("k", old ∷ young ∷ []) ∷ ("j", old ∷ []) ∷ []; closed = [] }

take_lem_example :
    let (hit, q) = take "k" 100 connections in
    (stale : List Pooled) × (fresh : List Pooled) × (items "k" connections ≡ stale ++ fresh)
    × AllStale 100 stale
    × (q.closed ≡ close_onto stale [])
    × TakesFrom 100 fresh hit (items "k" q)
take_lem_example = take_lem "k" 100 connections (==_apart "k" "" refl)

abbrev idle : WebSocketPool
idle = record { connections = []; closed = [] }

idle-IsBounded : IsBounded idle
unfolding lookup items_of
idle-IsBounded key = omega arith

abbrev calls : List Call
calls = puts "k" (some 1) 0 ∷ puts "k" (some 2) 1 ∷ puts "k" (some 3) 2 ∷ takes "k" 3 ∷ closes ∷ []

run-IsBounded_example : IsBounded (run idle calls)
run-IsBounded_example = run-IsBounded idle calls idle-IsBounded
