-- ===== src/WebAdmin/Keys/Lifecycle.antt =====
-- pkg/webadmin/keys.go: which raw keys are valid after creation, revocation and migration.
use mathlib.Core.Option
use mathlib.Core.Path.{ap₂}
use m365plus.Base.{
  ℕ, zero, suc, ◌≡◌, ◌≢◌, refl, sym, ◌∙◌, inl, inr, String, Bool, true, false, not, ◌&&◌, ◌||◌, [],
  ◌∷◌, ◌++◌, map, Option, none, some, arith, ◌==◌, ==_iff, string_eq, Bool-cases, Option-cases,
}
use m365plus.WebAdmin.Keys.Rollback.{find_index_tail}
use m365plus.WebAdmin.Keys.{
  ApiKeyRecord, Keys, NewKey, find_first, found, is_live_id, is_live_hash, set_revoked, new_record,
  create_bound, find_index, update_at, revoke, valid, migrate_key, migrate,
}

-- Some live record has the hash.
abbrev pub is_live : String → Keys → Bool
is_live h ks = found (find_first (is_live_hash h) ks)

unfoldable pub has_hash : String → Keys → Bool
has_hash h [] = false
has_hash h (k ∷ ks) = k.hash == h || has_hash h ks

-- No two records have one hash.
abbrev pub DistinctHashes : Keys → Type 0
DistinctHashes [] = Unit {0}
DistinctHashes (k ∷ ks) = (has_hash k.hash ks ≡ false) × DistinctHashes ks

is_live-append : (h : String) (ks js : Keys) → is_live h (ks ++ js) ≡ (is_live h ks || is_live h js)
unfolding find_first
is_live-append h [] js = refl
is_live-append h (k ∷ ks) js = ground (arith, is_live-append h ks js)

-- A key that was created and saved is valid, and no other raw key becomes valid by it, but one
-- with the same hash.
pub create_bound-valid :
    (hash : String → String) (new : NewKey) (name account raw : String) (now later : ℕ) (ks : Keys)
    → (valid hash raw later (create_bound hash new name account now true ks).1).0
      ≡ ((valid hash raw later ks).0 || hash new.raw == hash raw)
unfolding valid create_bound new_record
create_bound-valid hash new name account raw now later ks =
    is_live-append (hash raw) ks (new_record hash new name account now ∷ [])
    ∙ unfold find_first in ground arith

has_hash-is_live : (h : String) (ks : Keys) → has_hash h ks ≡ false → is_live h ks ≡ false
unfolding has_hash find_first
has_hash-is_live h [] e = refl
has_hash-is_live h (k ∷ ks) e = ground (arith, has_hash-is_live h ks)

find_first-has_hash :
    (test : ApiKeyRecord → Bool) (ks : Keys) (k : ApiKeyRecord)
    → find_first test ks ≡ some k
    → has_hash k.hash ks ≡ true
unfolding find_first has_hash
find_first-has_hash test [] k f = cc
find_first-has_hash test (x ∷ ks) k f =
    ground (arith, ==_iff x.hash k.hash, find_first-has_hash test ks k)

index_of_first :
    (test : ApiKeyRecord → Bool) (ks : Keys) (k : ApiKeyRecord)
    → find_first test ks ≡ some k
    → find_index test ks ≡ none
    → ⊥
unfolding find_first find_index
index_of_first test [] k f e = cc
index_of_first test (x ∷ ks) k f e = elim (Bool-cases (test x)) [
  | inl hit ↦ ground (arith, hit, e)
  | inr miss ↦
      index_of_first test ks k (ground (arith, miss, f))
        (no_tail (find_index test ks) (ground (arith, miss, e)))
]
  where
    no_tail : (o : Option ℕ) → Option.map suc o ≡ none → o ≡ none
    no_tail none h = refl
    no_tail (some i) h = cc

head_is_hit :
    (id : String) (x : ApiKeyRecord) (ks : Keys)
    → is_live_id id x ≡ false
    → find_index (is_live_id id) (x ∷ ks) ≡ some 0
    → ⊥
unfolding find_index
head_is_hit id x ks miss e = elim (Option-cases (find_index (is_live_id id) ks)) [
  | inl n ↦ ground (arith, miss, e, n)
  | inr (j, n) ↦ ground (arith, miss, e, n)
]

index_tail :
    (id h : String) (x : ApiKeyRecord) (ks : Keys) (i : ℕ) (k : ApiKeyRecord)
    → DistinctHashes (x ∷ ks)
    → find_index (is_live_id id) (x ∷ ks) ≡ some (suc i)
    → find_first (is_live_id id) (x ∷ ks) ≡ some k
    → (find_index (is_live_id id) ks ≡ some i)
      × (find_first (is_live_id id) ks ≡ some k)
      × (x.hash ≢ k.hash)
unfolding find_index find_first
index_tail id h x ks i k d e f = elim (Bool-cases (is_live_id id x)) [
  | inl hit ↦ absurd (ground (arith, hit, e))
  | inr miss ↦
      let f' : find_first (is_live_id id) ks ≡ some k = ground (arith, miss, f) in
      (
        find_index_tail (is_live_id id) i x ks e,
        f',
        λ q. cc (q, d.0, find_first-has_hash (is_live_id id) ks k f'),
      )
]

update_at-is_live :
    (id h : String) (ks : Keys) (i : ℕ) (k : ApiKeyRecord)
    → DistinctHashes ks
    → find_index (is_live_id id) ks ≡ some i
    → find_first (is_live_id id) ks ≡ some k
    → is_live h (update_at i (set_revoked true) ks) ≡ (is_live h ks && not (k.hash == h))
unfolding find_index find_first update_at
update_at-is_live id h [] i k d e f = cc
update_at-is_live id h (x ∷ ks) zero k d e f = elim (Bool-cases (is_live_id id x)) [
  | inl hit ↦
      let same : x ≡ k = ground (arith, hit, f) in
      rw (← same) (ground (arith, hit, has_hash-is_live h ks, ==_iff x.hash h))
  | inr miss ↦ absurd (head_is_hit id x ks miss e)
]
update_at-is_live id h (x ∷ ks) (suc i) k d e f =
    let (e', f', other) = index_tail id h x ks i k d e f in
    ground (arith, ==_iff x.hash h, ==_iff k.hash h, other, update_at-is_live id h ks i k d.1 e' f')

-- A key that was revoked and saved is no longer valid, and every other key is as valid as before,
-- if the hashes of the records are distinct.
pub revoke-valid :
    (hash : String → String) (id raw : String) (now : ℕ) (ks : Keys) (k : ApiKeyRecord)
    → DistinctHashes ks
    → find_first (is_live_id id) ks ≡ some k
    → (valid hash raw now (revoke id true ks).1).0
      ≡ ((valid hash raw now ks).0 && not (k.hash == hash raw))
unfolding valid revoke
revoke-valid hash id raw now ks k d f = elim (Option-cases (find_index (is_live_id id) ks)) [
  | inl none_there ↦ absurd (index_of_first (is_live_id id) ks k f none_there)
  | inr (i, e) ↦ rw (e, revoke) (update_at-is_live id (hash raw) ks i k d e f)
]

-- No record keeps its raw text.
abbrev pub AllCleared : Keys → Type 0
AllCleared [] = Unit {0}
AllCleared (k ∷ ks) = (k.raw ≡ "") × AllCleared ks

migrate-AllCleared : (hash : String → String) (ks : Keys) → AllCleared (migrate hash ks)
unfolding migrate migrate_key
migrate-AllCleared hash [] = tt
migrate-AllCleared hash (k ∷ ks) = (ground (arith, ==_iff k.raw ""), migrate-AllCleared hash ks)

-- Some live record keeps the raw text, and has no hash.
abbrev pub is_plain : String → ApiKeyRecord → Bool
is_plain raw k = k.raw == raw && (k.hash == "" && not k.revoked)

migrate_key-is_live :
    (hash : String → String) (raw : String) (k : ApiKeyRecord)
    → raw ≢ ""
    → hash raw ≢ ""
    → (is_live_hash (hash raw) k || is_plain raw k) ≡ true
    → is_live_hash (hash raw) (migrate_key hash k) ≡ true
unfolding migrate_key
migrate_key-is_live hash raw k ne full h = ground (
  arith,
  ==_iff k.raw "",
  ==_iff k.raw raw,
  ==_iff k.hash "",
  ==_iff (hash k.raw) (hash raw),
  ==_iff k.hash (hash raw),
)

found-cons :
    (test : ApiKeyRecord → Bool) (k : ApiKeyRecord) (ks : Keys)
    → found (find_first test (k ∷ ks)) ≡ (test k || found (find_first test ks))
unfolding find_first
found-cons test k ks = ground arith

or_four : (a b c d : Bool) → ((a || b) || (c || d)) ≡ ((a || c) || (b || d))
or_four a b c d = ground arith

or_true :
    {a b c d : Bool}
    → (a || b) ≡ true
    → (a ≡ true → c ≡ true)
    → (b ≡ true → d ≡ true)
    → (c || d) ≡ true
or_true {a} {b} {c} {d} h f g = elim (Bool-cases a) [
  | inl x ↦ rw (f x)
  | inr x ↦ ground (arith, g, x, h)
]

migrate-is_live :
    (hash : String → String) (raw : String) (ks : Keys)
    → raw ≢ ""
    → hash raw ≢ ""
    → (is_live (hash raw) ks || found (find_first (is_plain raw) ks)) ≡ true
    → is_live (hash raw) (migrate hash ks) ≡ true
unfolding migrate
migrate-is_live hash raw [] ne full h = unfold find_first in cc
migrate-is_live hash raw (k ∷ ks) ne full h =
    let h' : ((is_live_hash (hash raw) k || is_plain raw k)
          || (is_live (hash raw) ks || found (find_first (is_plain raw) ks)))
        ≡ true =
      or_four (is_live_hash (hash raw) k) (is_plain raw k) (is_live (hash raw) ks)
        (found (find_first (is_plain raw) ks))
      ∙ sym (ap₂ ◌||◌ (found-cons (is_live_hash (hash raw)) k ks) (found-cons (is_plain raw) k ks))
      ∙ h in
    found-cons (is_live_hash (hash raw)) (migrate_key hash k) (map (migrate_key hash) ks)
    ∙ or_true h' (migrate_key-is_live hash raw k ne full) (migrate-is_live hash raw ks ne full)

-- The migration at start-up leaves no raw text in the store, and a key that was valid before, or
-- was kept live in plain text with no hash, is valid after it, where its hash is not empty.
pub migrate-valid :
    (hash : String → String) (raw : String) (now : ℕ) (ks : Keys)
    → raw ≢ ""
    → hash raw ≢ ""
    → (is_live (hash raw) ks || found (find_first (is_plain raw) ks)) ≡ true
    → AllCleared (migrate hash ks) × ((valid hash raw now (migrate hash ks)).0 ≡ true)
unfolding valid
migrate-valid hash raw now ks ne full h =
    (migrate-AllCleared hash ks, migrate-is_live hash raw ks ne full h)
