-- ===== src/WebAdmin/Keys/Rollback.antt =====
-- pkg/webadmin/keys.go: what a failed flush leaves of an operation.
use m365plus.Base.{
  ℕ, zero, suc, ◌≡◌, ◌≢◌, refl, ap, inl, inr, String, Bool, true, false, [], ◌∷◌, ◌++◌, Option,
  some, arith, ==_iff, string_eq, Option-cases, get_elem?, take, drop,
}
use m365plus.WebAdmin.Keys.{
  ApiKeyRecord, Keys, NewKey, change_first, find_first, drop_last, not_saved, is_id, is_live_id,
  set_revoked, new_record, create_bound, find_index, update_at, revoke, delete, apply_update,
  update_full,
}

drop_last-append : (ks : Keys) (k : ApiKeyRecord) → drop_last (ks ++ k ∷ []) ≡ ks
unfolding drop_last
drop_last-append [] k = refl
drop_last-append (j ∷ []) k = refl
drop_last-append (j ∷ i ∷ ks) k = ap (◌∷◌ j) (drop_last-append (i ∷ ks) k)

take-drop-insert :
    (i : ℕ) (ks : Keys) (k : ApiKeyRecord)
    → get_elem? ks i ≡ some k
    → let left = take i ks ++ drop (suc i) ks in take i left ++ (k ∷ drop i left) ≡ ks
take-drop-insert i [] k h = cc
take-drop-insert zero (x ∷ xs) k h = cc
take-drop-insert (suc i) (x ∷ xs) k h = ap (◌∷◌ x) (take-drop-insert i xs k h)

pub find_index_tail :
    (test : ApiKeyRecord → Bool) (i : ℕ) (k : ApiKeyRecord) (ks : Keys)
    → find_index test (k ∷ ks) ≡ some (suc i)
    → find_index test ks ≡ some i
unfolding find_index
find_index_tail test i k ks h = elim (Option-cases (find_index test ks)) [
  | inl e ↦ ground (arith, e, h)
  | inr (j, e) ↦ ground (arith, e, h)
]

update_at-set_revoked :
    (test : ApiKeyRecord → Bool) (i : ℕ) (ks : Keys)
    → ((k : ApiKeyRecord) → test k ≡ true → k.revoked ≡ false)
    → find_index test ks ≡ some i
    → update_at i (set_revoked false) (update_at i (set_revoked true) ks) ≡ ks
unfolding find_index update_at
update_at-set_revoked test i [] live h = refl
update_at-set_revoked test zero (k ∷ ks) live h = ground (arith, live k)
update_at-set_revoked test (suc i) (k ∷ ks) live h =
    ap (◌∷◌ k) (update_at-set_revoked test i ks live (find_index_tail test i k ks h))

revoke_rolled_back : (id : String) (ks : Keys) → (revoke id false ks).1 ≡ ks
unfolding revoke
revoke_rolled_back id ks = elim (Option-cases (find_index (is_live_id id) ks)) [
  | inl e ↦ rw (e, revoke)
  | inr (i, e) ↦
      rw (e, revoke) (update_at-set_revoked (is_live_id id) i ks (λ k h. ground (arith, h)) e)
]

find_index-get_elem? :
    (test : ApiKeyRecord → Bool) (i : ℕ) (ks : Keys)
    → find_index test ks ≡ some i
    → (k : ApiKeyRecord) × (get_elem? ks i ≡ some k)
unfolding find_index
find_index-get_elem? test i [] h = cc
find_index-get_elem? test zero (k ∷ ks) h = (k, refl)
find_index-get_elem? test (suc i) (k ∷ ks) h =
    find_index-get_elem? test i ks (find_index_tail test i k ks h)

delete_rolled_back : (id : String) (ks : Keys) → (delete id false ks).1 ≡ ks
unfolding delete
delete_rolled_back id ks = elim (Option-cases (find_index (is_id id) ks)) [
  | inl e ↦ rw (e, delete)
  | inr (i, e) ↦
      let (k, at) = find_index-get_elem? (is_id id) i ks e in
      rw (e, delete) (rw (at, delete) (take-drop-insert i ks k at))
]

create_rolled_back :
    (hash : String → String) (new : NewKey) (name account : String) (now : ℕ) (ks : Keys)
    → (create_bound hash new name account now false ks).1 ≡ ks
unfolding create_bound
create_rolled_back hash new name account now ks =
    drop_last-append ks (new_record hash new name account now)

-- When the flush fails, `create`, `revoke` and `delete` leave the keys as they were.
pub rolled_back :
    (hash : String → String) (new : NewKey) (id name account : String) (now : ℕ) (ks : Keys)
    → ((create_bound hash new name account now false ks).1 ≡ ks)
      × ((revoke id false ks).1 ≡ ks)
      × ((delete id false ks).1 ≡ ks)
rolled_back hash new id name account now ks = (
  create_rolled_back hash new name account now ks,
  revoke_rolled_back id ks,
  delete_rolled_back id ks,
)

find_first-change_first :
    (test : ApiKeyRecord → Bool) (f : ApiKeyRecord → ApiKeyRecord) (ks : Keys) (k : ApiKeyRecord)
    → find_first test ks ≡ some k
    → test (f k) ≡ true
    → find_first test (change_first test f ks) ≡ some (f k)
unfolding find_first change_first
find_first-change_first test f [] k h keep = cc
find_first-change_first test f (x ∷ ks) k h keep =
    ground (arith, find_first-change_first test f ks k)

find_first-passes :
    (test : ApiKeyRecord → Bool) (ks : Keys) (k : ApiKeyRecord)
    → find_first test ks ≡ some k
    → test k ≡ true
unfolding find_first
find_first-passes test [] k h = cc
find_first-passes test (x ∷ ks) k h = ground (arith, find_first-passes test ks k)

-- `updateFull` keeps the change that it could not save: when the flush fails, the first record
-- with the id is renamed in memory all the same, though the call answers an error.
pub update_full_kept :
    (id name account : String) (flag : Option Bool) (ks : Keys) (k : ApiKeyRecord)
    → find_first (is_id id) ks ≡ some k
    → name ≢ ""
    → let (answer, left) = update_full id name flag account false ks in
      (answer ≡ not_saved)
      × (find_first (is_id id) left ≡ some (apply_update name flag account k))
      × ((apply_update name flag account k).name ≡ name)
unfolding update_full apply_update
update_full_kept id name account flag ks k h ne =
    let keeps =
      find_first-change_first (is_id id) (apply_update name flag account) ks k h
        (find_first-passes (is_id id) ks k h) in
    ground (arith, keeps, ==_iff name "")
