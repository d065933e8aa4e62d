-- ===== src/WebAdmin/AutoCleanup/Spared.antt =====
-- pkg/webadmin/auto_cleanup.go: what a cleanup never deletes.
use m365plus.Base.{
  ℕ, zero, suc, ◌≡◌, refl, String, Bool, true, false, not, ◌||◌, ◌&&◌, List, [], ◌∷◌, ◌++◌, Option,
  none, some, ◌==◌, string_eq, filterb, drop, sort_slice, sort_insert, on_both, on_each, arith,
}
use m365plus.Base.Map.{Map, lookup, insert, lookup-insert}
use m365plus.WebAdmin.Conversations.{is_true}
use m365plus.WebAdmin.AutoCleanup.{
  Chat, Candidate, Cloud, Server, mark, bound_ids, user_ids, whitelisted_ids, managed_ids,
  active_conversation_set, drop_conversation, candidate_of, add_candidate, candidates, is_stale,
  older, doomed, delete_candidate, delete_candidates, round_over, rounds, auto_cleanup_once,
}

abbrev pub stands_in : String → List String → Bool
stands_in id [] = false
stands_in id (j ∷ js) = j == id || stands_in id js

lookup-mark :
    (id : String) (ids : List String) (active : Map String Bool)
    → is_true (lookup id (mark ids active)) ≡ (stands_in id ids || is_true (lookup id active))
unfolding mark
lookup-mark id [] active = refl
lookup-mark id (j ∷ js) active =
    ground (arith, lookup-mark id js (insert j true active), lookup-insert j id true active)

lookup_nothing : (id : String) → is_true (lookup id []) ≡ false
unfolding lookup
lookup_nothing id = refl

-- Whether a conversation is whitelisted, or was used within the window through a session, by a
-- user or by the manager's record.
abbrev pub is_protected {ℓ} : {C : Type ℓ} → ℕ → ℕ → Server C → String → Bool
is_protected window now s id =
    stands_in id (managed_ids window now s)
    || stands_in id (whitelisted_ids s)
    || stands_in id (user_ids window now s)
    || stands_in id (bound_ids window now s)

active_is_protected {ℓ} :
    {C : Type ℓ} (window now : ℕ) (s : Server C) (id : String)
    → is_true (lookup id (active_conversation_set window now s)) ≡ is_protected window now s id
unfolding active_conversation_set
active_is_protected window now s id =
    let bound = mark (bound_ids window now s) [] in
    let used = mark (user_ids window now s) bound in
    let listed = mark (whitelisted_ids s) used in
    ground (
      arith,
      lookup-mark id (managed_ids window now s) listed,
      lookup-mark id (whitelisted_ids s) used,
      lookup-mark id (user_ids window now s) bound,
      lookup-mark id (bound_ids window now s) [],
      lookup_nothing id,
    )

abbrev pub all {ℓ} : {A : Type ℓ} → (A → Bool) → List A → Bool
all p [] = true
all p (x ∷ xs) = p x && all p xs

module _ {ℓ} {A : Type ℓ} (p : A → Bool) where
  all-append : (xs ys : List A) → all p xs ≡ true → all p ys ≡ true → all p (xs ++ ys) ≡ true
  all-append [] ys h k = k
  all-append (x ∷ xs) ys h k = ground (arith, all-append xs ys)

  all-filterb : (q : A → Bool) (xs : List A) → all p xs ≡ true → all p (filterb q xs) ≡ true
  all-filterb q [] h = refl
  all-filterb q (x ∷ xs) h = ground (arith, all-filterb q xs)

  pub all-drop : (n : ℕ) (xs : List A) → all p xs ≡ true → all p (drop n xs) ≡ true
  all-drop zero xs h = h
  all-drop (suc n) [] h = refl
  all-drop (suc n) (x ∷ xs) h = all-drop n xs (ground arith)

  pub all-sort_insert :
      (before : A → A → Bool) (x : A) (xs : List A)
      → p x ≡ true
      → all p xs ≡ true
      → all p (sort_insert before x xs) ≡ true
  unfolding sort_insert
  all-sort_insert before x [] h k = ground arith
  all-sort_insert before x (y ∷ ys) h k = ground (arith, all-sort_insert before x ys)

  all-sort_slice :
      (before : A → A → Bool) (xs : List A) → all p xs ≡ true → all p (sort_slice before xs) ≡ true
  unfolding sort_slice
  all-sort_slice before [] h = refl
  all-sort_slice before (x ∷ xs) h =
      all-sort_insert before x (sort_slice before xs) (ground arith)
        (all-sort_slice before xs (ground arith))

abbrev pub is_idle : Map String Bool → String → Bool
is_idle active id = not (is_true (lookup id active))

module _ (active : Map String Bool) where
  abbrev IsFine : Option Candidate → Type 0
  IsFine none = Unit {0}
  IsFine (some c) = is_idle active c.id ≡ true

  of_time :
      (id : String) (o : Option ℕ)
      → is_idle active id ≡ true
      → IsFine (elim o [ none ↦ none | some ms ↦ some (record { id = id; create_ms = ms }) ])
  of_time id none h = tt
  of_time id (some ms) h = h

  candidate_of-IsFine : (chat : Chat) → IsFine (candidate_of active chat)
  candidate_of-IsFine chat = on_both IsFine (chat.conversation_id == "") tt (
      on_each IsFine (is_true (lookup chat.conversation_id active)) (λ yes. tt)
        (λ no. of_time chat.conversation_id chat.create_ms (ground arith)))

  add_candidate_idle :
      (o : Option Candidate) (cs : List Candidate)
      → IsFine o
      → all (λ c. is_idle active c.id) cs ≡ true
      → all (λ c. is_idle active c.id) (add_candidate o cs) ≡ true
  add_candidate_idle none cs h k = k
  add_candidate_idle (some c) cs h k = ground arith

  candidates_idle :
      (chats : List Chat) → all (λ c. is_idle active c.id) (candidates active chats) ≡ true
  unfolding candidates
  candidates_idle [] = refl
  candidates_idle (chat ∷ chats) =
      add_candidate_idle (candidate_of active chat) (candidates active chats)
        (candidate_of-IsFine chat) (candidates_idle chats)

doomed_idle :
    (max_age keep_n now : ℕ) (active : Map String Bool) (chats : List Chat)
    → all (λ c. is_idle active c.id) (doomed max_age keep_n now (candidates active chats)) ≡ true
unfolding doomed
doomed_idle max_age keep_n now active chats =
    let cs = candidates active chats in
    let p : Candidate → Bool = λ c. is_idle active c.id in
    let young = filterb (λ c. not (is_stale max_age now c)) cs in
    let h = candidates_idle active chats in
    all-append p (filterb (is_stale max_age now) cs) (drop keep_n (sort_slice older young))
      (all-filterb p (is_stale max_age now) cs h)
      (all-drop p keep_n (sort_slice older young)
        (all-sort_slice p older young (all-filterb p (λ c. not (is_stale max_age now c)) cs h)))

module _ {ℓ} {C : Type ℓ} (cloud : Cloud C) where
  delete_candidates_idle :
      (active : Map String Bool) (cs : List Candidate) (s : Server C)
      → all (λ c. is_idle active c.id) cs ≡ true
      → all (is_idle active) s.deleted ≡ true
      → all (is_idle active) (delete_candidates cloud cs s).1.deleted ≡ true
  unfolding delete_candidates delete_candidate drop_conversation
  delete_candidates_idle active [] s h k = k
  delete_candidates_idle active (c ∷ cs) s h k =
      delete_candidates_idle active cs (delete_candidate cloud c s).1 (ground arith) (
        on_both (λ (x : Bool × Server C). all (is_idle active) x.1.deleted ≡ true)
          (cloud.remove c.id s.cloud).0
          (all-append (is_idle active) s.deleted (c.id ∷ []) k (ground arith)) k)

  rounds_idle :
      (left max_age keep_n now : ℕ) (active : Map String Bool) (s : Server C)
      → all (is_idle active) s.deleted ≡ true
      → all (is_idle active) (rounds cloud left max_age keep_n now active s).deleted ≡ true
  unfolding rounds
  rounds_idle zero max_age keep_n now active s h = h
  rounds_idle (suc left) max_age keep_n now active s h =
      let over = round_over cloud max_age keep_n now active (cloud.list s.cloud) s in
      on_both (λ (x : Server C). all (is_idle active) x.deleted ≡ true) over.0
        (rounds_idle left max_age keep_n now active over.1 (round (cloud.list s.cloud)))
        (round (cloud.list s.cloud))
    where
      round :
          (o : Option (List Chat))
          → all (is_idle active) (round_over cloud max_age keep_n now active o s).1.deleted ≡ true
      round none = h
      round (some []) = h
      round (some (chat ∷ chats)) =
          delete_candidates_idle active
            (doomed max_age keep_n now (candidates active (chat ∷ chats))) s
            (doomed_idle max_age keep_n now active (chat ∷ chats)) h

  all_unprotected :
      (window now : ℕ) (s : Server C) (ids : List String)
      → all (is_idle (active_conversation_set window now s)) ids ≡ true
      → all (λ id. not (is_protected window now s id)) ids ≡ true
  all_unprotected window now s [] h = refl
  all_unprotected window now s (id ∷ ids) h =
      ground (arith, all_unprotected window now s ids, active_is_protected window now s id)

  -- A cleanup that starts with nothing deleted deletes no conversation that is whitelisted, or that
  -- a session, a user or the manager used within the window, whatever the cloud answers.
  pub auto_cleanup_once_spares :
      (max_age keep_n now : ℕ) (s : Server C)
      → s.deleted ≡ []
      → all
          (λ id. not (is_protected max_age now s id))
          (auto_cleanup_once cloud max_age keep_n now s).deleted
        ≡ true
  unfolding auto_cleanup_once
  auto_cleanup_once_spares max_age keep_n now s e =
      all_unprotected max_age now s _
        (rounds_idle 100 max_age keep_n now (active_conversation_set max_age now s) s (rw e refl))
