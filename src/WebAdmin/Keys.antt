-- ===== src/WebAdmin/Keys.antt =====
-- pkg/webadmin/keys.go: the store of API keys. `hash` is `keyHash`, SHA-256 in hexadecimal;
-- `flushed` is whether `flushNowBlocking` succeeds; the random bytes of a new key enter as its raw
-- text, its id and its prefix. Times are numbers.
pub mod Lifecycle
pub mod Rollback
use m365plus.Base.{
  ℕ, ◌+◌, String, Bool, true, false, not, ◌&&◌, List, [], ◌∷◌, ◌++◌, map, Option, none, some, ◌==◌,
  string_eq, if◌then◌else◌, zero, suc, get_elem?, take, drop,
}
use mathlib.Core.Option

pub record ApiKeyRecord : Type 0 where
  pub id : String
  pub name : String
  pub prefix : String
  pub hash : String
  pub raw : String
  pub account_id : String
  pub created_at : ℕ
  pub last_used_at : Option ℕ
  pub revoked : Bool

abbrev pub Keys : Type 0
Keys = List ApiKeyRecord

pub record NewKey : Type 0 where
  pub id : String
  pub prefix : String
  pub raw : String

-- `for i := range s.Keys { if test { change; break } }`: the keys, and whether one was found.
unfoldable pub change_first : (ApiKeyRecord → Bool) → (ApiKeyRecord → ApiKeyRecord) → Keys → Keys
change_first test f [] = []
change_first test f (k ∷ ks) = if test k then f k ∷ ks else k ∷ change_first test f ks

unfoldable pub find_first : (ApiKeyRecord → Bool) → Keys → Option ApiKeyRecord
find_first test [] = none
find_first test (k ∷ ks) = if test k then some k else find_first test ks

abbrev pub found : Option ApiKeyRecord → Bool
found none = false
found (some _) = true

-- `s.Keys[:len(s.Keys)-1]`.
unfoldable pub drop_last : Keys → Keys
drop_last [] = []
drop_last (k ∷ []) = []
drop_last (k ∷ j ∷ ks) = k ∷ drop_last (j ∷ ks)

-- What an operation that persists answers: its result, or the error of the flush.
pub data Saved {ℓ} (A : Type ℓ) : Type ℓ where
  done : A → Saved A
  not_saved : Saved A

-- Without `Hash` and `Raw`.
abbrev pub redact : ApiKeyRecord → ApiKeyRecord
redact k = record k { hash = ""; raw = "" }

abbrev pub is_id : String → ApiKeyRecord → Bool
is_id id k = k.id == id

abbrev pub is_live_id : String → ApiKeyRecord → Bool
is_live_id id k = k.id == id && not k.revoked

abbrev pub is_live_hash : String → ApiKeyRecord → Bool
is_live_hash h k = k.hash == h && not k.revoked

module _ (hash : String → String) where
  unfoldable pub new_record : NewKey → String → String → ℕ → ApiKeyRecord
  new_record new name account now = record {
    id = new.id;
    name = name;
    prefix = new.prefix;
    hash = hash new.raw;
    raw = "";
    account_id = account;
    created_at = now;
    last_used_at = none;
    revoked = false;
  }

  unfoldable pub create_bound :
      NewKey → String → String → ℕ → Bool → Keys → Saved (ApiKeyRecord × String) × Keys
  create_bound new name account now flushed ks =
      let r = new_record new name account now in
      let added = ks ++ r ∷ [] in
      if flushed then (done (redact r, new.raw), added) else (not_saved, drop_last added)

  unfoldable pub create : NewKey → String → ℕ → Bool → Keys → Saved (ApiKeyRecord × String) × Keys
  create new name = create_bound new name ""

  unfoldable pub bound_account_id : String → Keys → String
  bound_account_id raw ks = elim (find_first (is_live_hash (hash raw)) ks) [
    | none ↦ ""
    | some k ↦ k.account_id
  ]

  unfoldable pub valid : String → ℕ → Keys → Bool × Keys
  valid raw now ks = (
    found (find_first (is_live_hash (hash raw)) ks),
    change_first (is_live_hash (hash raw)) (λ k. record k { last_used_at = some now }) ks,
  )

  -- The migration of `openAPIKeys` on the keys that it has read.
  unfoldable pub migrate_key : ApiKeyRecord → ApiKeyRecord
  migrate_key k =
      if k.raw == ""
      then k
      else record k { hash = if k.hash == "" then hash k.raw else k.hash; raw = "" }

  unfoldable pub migrate : Keys → Keys
  migrate ks = map migrate_key ks

unfoldable pub list : Keys → Keys
list ks = map redact ks

abbrev pub set_revoked : Bool → ApiKeyRecord → ApiKeyRecord
set_revoked b k = record k { revoked = b }

unfoldable pub find_index : (ApiKeyRecord → Bool) → Keys → Option ℕ
find_index test [] = none
find_index test (k ∷ ks) = if test k then some 0 else Option.map suc (find_index test ks)

-- `s.Keys[i].Revoked = …`.
unfoldable pub update_at : ℕ → (ApiKeyRecord → ApiKeyRecord) → Keys → Keys
update_at i f [] = []
update_at zero f (k ∷ ks) = f k ∷ ks
update_at (suc i) f (k ∷ ks) = k ∷ update_at i f ks

-- `revoke` finds the first live record of the id; a failed flush sets its flag back.
unfoldable pub revoke : String → Bool → Keys → Saved Bool × Keys
revoke id flushed ks = elim (find_index (is_live_id id) ks) [
  | none ↦ (done false, ks)
  | some i ↦
      let revoked = update_at i (set_revoked true) ks in
      if flushed then (done true, revoked) else (not_saved, update_at i (set_revoked false) revoked)
]

-- `delete` cuts the first record of the id out; a failed flush puts it back at its index.
unfoldable pub delete : String → Bool → Keys → Saved Bool × Keys
delete id flushed ks = elim (find_index (is_id id) ks) [
  | none ↦ (done false, ks)
  | some i ↦ elim (get_elem? ks i) [
    | none ↦ (done false, ks)
    | some removed ↦
        let left = take i ks ++ drop (suc i) ks in
        if flushed then (done true, left) else (not_saved, take i left ++ (removed ∷ drop i left))
  ]
]

-- The fields that `updateFull` sets: a name or account that is not empty, a flag that is not nil.
unfoldable pub apply_update : String → Option Bool → String → ApiKeyRecord → ApiKeyRecord
apply_update name flag account k = record k {
  name = if name == "" then k.name else name;
  revoked = elim flag [ none ↦ k.revoked | some b ↦ b ];
  account_id = if account == "" then k.account_id else account;
}

unfoldable pub update_full :
    String → String → Option Bool → String → Bool → Keys → Saved Bool × Keys
update_full id name flag account flushed ks =
    let changed = change_first (is_id id) (apply_update name flag account) ks in
    if not (found (find_first (is_id id) ks))
    then (done false, changed)
    else if flushed
    then (done true, changed)
    else (not_saved, changed)

unfoldable pub update : String → String → Option Bool → Bool → Keys → Saved Bool × Keys
update id name flag = update_full id name flag ""
