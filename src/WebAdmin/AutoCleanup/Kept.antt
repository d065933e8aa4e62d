-- ===== src/WebAdmin/AutoCleanup/Kept.antt =====
-- pkg/webadmin/auto_cleanup.go: which conversations a round deletes and keeps.
use m365plus.Base.{
  ℕ, zero, suc, ◌≡◌, refl, Bool, true, not, ◌&&◌, List, [], ◌∷◌, ◌++◌, leb, filterb, take, drop,
  take-append-drop, length, length-drop, append_assoc, append-nil, map, some, String, ◌-◌, sym,
  subst, ap, ◌∙◌, on_both, sort_slice, sort_insert, on_each, arith,
}
use mathlib.Core.List.Perm
use mathlib.Core.List.{Perm}
use m365plus.Base.Map.{Map}
use m365plus.WebAdmin.AutoCleanup.{
  Chat, Candidate, Cloud, Server, is_stale, older, doomed, candidates, drop_conversation,
  delete_candidate, delete_candidates, round_over,
}
use m365plus.WebAdmin.AutoCleanup.Spared.{all, all-sort_insert, all-drop}

-- Whether no candidate of a list is older than one.
abbrev pub none_older : Candidate → List Candidate → Bool
none_older c cs = all (λ d. leb c.create_ms d.create_ms) cs

abbrev is_sorted : List Candidate → Bool
is_sorted [] = true
is_sorted (c ∷ cs) = none_older c cs && is_sorted cs

none_older_trans :
    (a b : Candidate) (cs : List Candidate)
    → leb a.create_ms b.create_ms ≡ true
    → none_older b cs ≡ true
    → none_older a cs ≡ true
none_older_trans a b [] h k = refl
none_older_trans a b (c ∷ cs) h k = ground (arith, none_older_trans a b cs)

is_sorted-sort_insert :
    (x : Candidate) (xs : List Candidate)
    → is_sorted xs ≡ true
    → is_sorted (sort_insert older x xs) ≡ true
unfolding sort_insert
is_sorted-sort_insert x [] h = refl
is_sorted-sort_insert x (y ∷ ys) h =
    on_each (λ (zs : List Candidate). is_sorted zs ≡ true) (older y x)
      (λ less. ground (
        arith,
        is_sorted-sort_insert x ys,
        all-sort_insert (λ d. leb y.create_ms d.create_ms) older x ys,
      ))
      (λ more. ground (arith, none_older_trans x y ys))

is_sorted-sort_slice : (xs : List Candidate) → is_sorted (sort_slice older xs) ≡ true
unfolding sort_slice
is_sorted-sort_slice [] = refl
is_sorted-sort_slice (x ∷ xs) =
    is_sorted-sort_insert x (sort_slice older xs) (is_sorted-sort_slice xs)

split_sorted :
    (n : ℕ) (xs : List Candidate)
    → is_sorted xs ≡ true
    → all (λ k. none_older k (drop n xs)) (take n xs) ≡ true
split_sorted zero xs h = refl
split_sorted (suc n) [] h = refl
split_sorted (suc n) (x ∷ xs) h =
    ground (arith, split_sorted n xs, all-drop (λ d. leb x.create_ms d.create_ms) n xs)

module _ {ℓ} {A : Type ℓ} (before : A → A → Bool) where
  sort_insert-perm : (x : A) (xs : List A) → Perm (sort_insert before x xs) (x ∷ xs)
  unfolding sort_insert
  sort_insert-perm x [] = Perm.refl (x ∷ [])
  sort_insert-perm x (y ∷ ys) =
      on_both (λ (l : List A). Perm l (x ∷ y ∷ ys)) (before y x)
        (Perm.trans (Perm.cons y (sort_insert-perm x ys)) (Perm.swap x y ys))
        (Perm.refl (x ∷ y ∷ ys))

  sort_slice-perm : (xs : List A) → Perm (sort_slice before xs) xs
  unfolding sort_slice
  sort_slice-perm [] = Perm.refl []
  sort_slice-perm (x ∷ xs) =
      Perm.trans (sort_insert-perm x (sort_slice before xs)) (Perm.cons x (sort_slice-perm xs))

  length-sort_insert : (x : A) (xs : List A) → length (sort_insert before x xs) ≡ suc (length xs)
  unfolding sort_insert
  length-sort_insert x [] = refl
  length-sort_insert x (y ∷ ys) =
      on_both (λ (l : List A). length l ≡ suc (length (y ∷ ys))) (before y x)
        (ap suc (length-sort_insert x ys)) refl

  length-sort_slice : (xs : List A) → length (sort_slice before xs) ≡ length xs
  unfolding sort_slice
  length-sort_slice [] = refl
  length-sort_slice (x ∷ xs) =
      length-sort_insert x (sort_slice before xs) ∙ ap suc (length-sort_slice xs)

module _ {ℓ} {C : Type ℓ} (cloud : Cloud C)
    (removes : (id : String) (c : C) → (cloud.remove id c).0 ≡ true) where
  delete_candidates-deleted :
      (cs : List Candidate) (s : Server C)
      → (delete_candidates cloud cs s).1.deleted ≡ s.deleted ++ map (λ c. c.id) cs
  unfolding delete_candidates delete_candidate drop_conversation
  delete_candidates-deleted [] s = simp append-nil
  delete_candidates-deleted (c ∷ cs) s =
      delete_candidates-deleted cs (delete_candidate cloud c s).1
      ∙ rw (removes c.id s.cloud) (append_assoc s.deleted (c.id ∷ []) (map (λ d. d.id) cs))

  -- A round over a cloud that deletes what it is asked to deletes the stale candidates and, of the
  -- others, all but `keep_n`: none that it deletes of those is older than one that it keeps.
  pub round_over_lem :
      (max_age keep_n now : ℕ) (active : Map String Bool) (chat : Chat) (chats : List Chat)
      (s : Server C)
      → let cs = candidates active (chat ∷ chats) in
        let young = filterb (λ c. not (is_stale max_age now c)) cs in
        let after = (round_over cloud max_age keep_n now active (some (chat ∷ chats)) s).1 in
        (kept : List Candidate) × (gone : List Candidate) × Perm (kept ++ gone) young
        × (length gone ≡ length young - keep_n)
        × (all (λ k. none_older k gone) kept ≡ true)
        × (after.deleted ≡ s.deleted ++ map (λ c. c.id) (filterb (is_stale max_age now) cs ++ gone))
  unfolding doomed
  round_over_lem max_age keep_n now active chat chats s =
      let cs = candidates active (chat ∷ chats) in
      let young = filterb (λ c. not (is_stale max_age now c)) cs in
      let sorted = sort_slice older young in
      let same = sort_slice-perm older young in
      (
        take keep_n sorted,
        drop keep_n sorted,
        subst (λ l. Perm l young) (sym (take-append-drop keep_n sorted)) same,
        length-drop keep_n sorted ∙ ap (λ n. n - keep_n) (length-sort_slice older young),
        split_sorted keep_n sorted (is_sorted-sort_slice young),
        delete_candidates-deleted (filterb (is_stale max_age now) cs ++ drop keep_n sorted) s,
      )
