-- ===== src/Outbound.antt =====
-- pkg/webadmin/outbound/pool.go: the proxy pool. Times and durations are in seconds, the zero time
-- is 0, and `now` is what `time.Now` answers. `C` stands for the dialers that `New` builds from a
-- URL. Entries are made by `NewPool` alone, with distinct URLs, so that a pointer to an entry is
-- its URL; the pool's lock makes each operation one step.
pub mod Rotation
pub mod Marks
pub mod Registry
pub mod Retry
pub mod Health
use m365plus.Base.{
  ◌≡◌, refl, ◌⊎◌, inl, inr, ℕ, zero, suc, ◌+◌, ◌*◌, ◌%◌, min, String, Bool, true, false, not, ◌||◌,
  List, [], ◌∷◌, ◌++◌, Option, none, some, ltb, ◌==◌, string_eq, nat_eq, if◌then◌else◌, length,
  get_elem?,
}

pub record Entry (C : Type 0) : Type 0 where
  pub raw : String
  pub clients : C
  pub failures : ℕ
  pub cooldown : ℕ
  pub last_check : ℕ
  pub latency : ℕ
  pub last_error : String
  pub health : String

pub record Pool (C : Type 0) : Type 0 where
  pub entries : List (Entry C)
  pub next : ℕ

-- What a call that may fail answers; `E` is the error.
pub data Result {ℓ} (A : Type ℓ) : Type ℓ where
  ok : A → Result A
  err : String → Result A

abbrev pub failed {ℓ} : {A : Type ℓ} → Result A → Bool
failed (ok _) = false
failed (err _) = true

pub Result-cases {ℓ} :
    {A : Type ℓ} (r : Result A) → ((a : A) × (r ≡ ok a)) ⊎ ((m : String) × (r ≡ err m))
Result-cases (ok a) = inl (a, refl)
Result-cases (err m) = inr (m, refl)

-- A loop that skips rounds by a test, from round `i` with the rounds left: the round that stops it.
unfoldable pub first_round : (ℕ → Bool) → ℕ → ℕ → Option ℕ
first_round skip zero i = none
first_round skip (suc left) i =
    let rest = first_round skip left (i + 1) in if skip i then rest else some i

unfoldable pub seen_before : String → List String → Bool
seen_before v [] = false
seen_before v (s ∷ seen) = s == v || seen_before v seen

module _ {C : Type 0} where
  -- `now.Before(e.cooldown)`; an index past the end does not occur.
  abbrev pub cooling : ℕ → Option (Entry C) → Bool
  cooling now none = true
  cooling now (some e) = ltb now e.cooldown

  -- The test of round `i`.
  abbrev pub is_cooling : Pool C → ℕ → ℕ → Bool
  is_cooling p now i = cooling now (get_elem? p.entries ((p.next + i) % length p.entries))

  -- What follows the loop: the entry of round `i`, or, if all are cooling, the next one.
  abbrev pub pick_at : Pool C → ℕ → Option (Entry C) × Pool C
  pick_at p i = (
    get_elem? p.entries ((p.next + i) % length p.entries),
    record p { next = (p.next + i + 1) % length p.entries },
  )

  unfoldable pub pick : Pool C → ℕ → Option (Entry C) × Pool C
  pick p now =
      if length p.entries == 0
      then (none, p)
      else elim (first_round (is_cooling p now) (length p.entries) 0) [
        | some i ↦ pick_at p i
        | none ↦ (
          get_elem? p.entries (p.next % length p.entries),
          record p { next = (p.next + 1) % length p.entries },
        )
      ]

  -- `mark` on one entry.
  unfoldable pub mark_entry : Bool → ℕ → Entry C → Entry C
  mark_entry bad now e =
      if bad
      then record e { failures = e.failures + 1; cooldown = now + min ((e.failures + 1) * 2) 120 }
      else record e { failures = 0; cooldown = 0 }

  -- The loops that change the first entry with a given URL.
  unfoldable pub update_first : String → (Entry C → Entry C) → List (Entry C) → List (Entry C)
  update_first raw f [] = []
  update_first raw f (e ∷ es) = if e.raw == raw then f e ∷ es else e ∷ update_first raw f es

  unfoldable pub mark : String → Bool → ℕ → Pool C → Pool C
  mark raw bad now p = record p { entries = update_first raw (mark_entry bad now) p.entries }

  unfoldable pub remove_first : String → List (Entry C) → List (Entry C)
  remove_first raw [] = []
  remove_first raw (e ∷ es) = if e.raw == raw then es else e ∷ remove_first raw es

  unfoldable pub remove : String → Pool C → Pool C
  remove raw p = record p { entries = remove_first raw p.entries }

  -- The loop of `NewPool`: `seen` are the URLs taken so far, and `new` is `New`.
  abbrev pub fresh_entry : String → C → Entry C
  fresh_entry v c = record {
    raw = v;
    clients = c;
    failures = 0;
    cooldown = 0;
    last_check = 0;
    latency = 0;
    last_error = "";
    health = "";
  }

  abbrev pub cons_ok : Entry C → Result (List (Entry C)) → Result (List (Entry C))
  cons_ok e (ok es) = ok (e ∷ es)
  cons_ok e (err m) = err m

  unfoldable pub build_entries :
      (String → Result C) → List String → List String → Result (List (Entry C))
  build_entries new seen [] = ok []
  build_entries new seen (v ∷ raws) =
      let skip = build_entries new seen raws in
      let rest = build_entries new (v ∷ seen) raws in
      if v == "" || seen_before v seen
      then skip
      else elim (new v) [ ok c ↦ cons_ok (fresh_entry v c) rest | err m ↦ err m ]

  abbrev pub as_pool : Result (List (Entry C)) → Result (Pool C)
  as_pool (ok es) = ok (record { entries = es; next = 0 })
  as_pool (err m) = err m

  unfoldable pub new_pool : (String → Result C) → List String → Result (Pool C)
  new_pool new raws = as_pool (build_entries new [] raws)
