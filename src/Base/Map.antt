-- ===== src/Base/Map.antt =====
-- A Go map as an association list. `insert` writes over an entry in place, so a map that starts
-- empty holds a key once; the order of the entries stands for the order of a `range` loop, which
-- Go leaves open.
use mathlib.Core.Path.{◌≡◌, refl}
use mathlib.Core.Bool.{Bool}
use mathlib.Core.Logic.{◌⊎◌}
use mathlib.Core.List.{List, [], ◌∷◌}
use mathlib.Core.Option.{Option, none, some}
use Prim.Native.Nat.{◌+◌, ◌≤◌}
use native.Mathlib.Omega.{arith}
use m365plus.Base.Lists.{length}
use m365plus.Base.Tests.{Eq, ◌==◌, ==_iff, ==_refl, if◌then◌else◌}

abbrev pub Map {ℓ κ} : Type ℓ → Type κ → Type (ℓ ⊔ κ)
Map K V = List (K × V)

module _ {ℓ κ} {K : Type ℓ} ⦃e : Eq K⦄ {V : Type κ} where
  unfoldable pub lookup : K → Map K V → Option V
  lookup k [] = none
  lookup k ((j, v) ∷ m) = if j == k then some v else lookup k m

  unfoldable pub insert : K → V → Map K V → Map K V
  insert k v [] = (k, v) ∷ []
  insert k v ((j, w) ∷ m) = if j == k then (k, v) ∷ m else (j, w) ∷ insert k v m

  unfoldable pub delete : K → Map K V → Map K V
  delete k [] = []
  delete k ((j, w) ∷ m) = if j == k then delete k m else (j, w) ∷ delete k m

  pub lookup-insert :
      (k j : K) (v : V) (m : Map K V)
      → lookup j (insert k v m) ≡ (if k == j then some v else lookup j m)
  unfolding lookup insert
  lookup-insert k j v [] = refl
  lookup-insert k j v ((first, old) ∷ rest) =
      ground (arith, lookup-insert k j v rest, ==_iff first k, ==_iff first j, ==_iff k j)

  pub lookup-delete :
      (k j : K) (m : Map K V) → lookup j (delete k m) ≡ (if k == j then none else lookup j m)
  unfolding lookup delete
  lookup-delete k j [] = ground arith
  lookup-delete k j ((first, old) ∷ rest) =
      ground (arith, lookup-delete k j rest, ==_iff first k, ==_iff first j, ==_iff k j)

  pub lookup-insert_self : (k : K) (v : V) (m : Map K V) → lookup k (insert k v m) ≡ some v
  lookup-insert_self k v m = simp (lookup-insert, ==_refl)

  pub lookup-delete_self : (k : K) (m : Map K V) → lookup k (delete k m) ≡ none
  lookup-delete_self k m = simp (lookup-delete, ==_refl)

  -- A `range` loop that deletes the entries that fail a test.
  unfoldable pub keep_entries : (K → V → Bool) → Map K V → Map K V
  keep_entries p [] = []
  keep_entries p ((j, w) ∷ m) = if p j w then (j, w) ∷ keep_entries p m else keep_entries p m

  abbrev pub keep_value : (K → V → Bool) → K → Option V → Option V
  keep_value p k none = none
  keep_value p k (some v) = if p k v then some v else none

  -- No key stands twice.
  abbrev pub DistinctKeys : Map K V → Type κ
  DistinctKeys [] = Unit
  DistinctKeys ((j, w) ∷ m) = (lookup j m ≡ none) × DistinctKeys m

  lookup-keep_entries-none :
      (p : K → V → Bool) (k : K) (m : Map K V)
      → lookup k m ≡ none
      → lookup k (keep_entries p m) ≡ none
  unfolding lookup keep_entries
  lookup-keep_entries-none p k [] h = refl
  lookup-keep_entries-none p k ((j, w) ∷ m) h = ground (arith, lookup-keep_entries-none p k m)

  pub lookup-keep_entries :
      (p : K → V → Bool) (k : K) (m : Map K V)
      → DistinctKeys m
      → lookup k (keep_entries p m) ≡ keep_value p k (lookup k m)
  unfolding lookup keep_entries
  lookup-keep_entries p k [] d = refl
  lookup-keep_entries p k ((j, w) ∷ m) d =
      ground (arith, ==_iff j k, d.0, lookup-keep_entries p k m d.1, lookup-keep_entries-none p k m)

  pub insert-DistinctKeys :
      (k : K) (v : V) (m : Map K V) → DistinctKeys m → DistinctKeys (insert k v m)
  unfolding insert lookup
  insert-DistinctKeys k v [] d = (refl, tt)
  insert-DistinctKeys k v ((j, w) ∷ m) d =
      ground
        (arith, ==_iff j k, ==_iff k j, insert-DistinctKeys k v m d.1, lookup-insert k j v m, d.0)

  pub delete-DistinctKeys : (k : K) (m : Map K V) → DistinctKeys m → DistinctKeys (delete k m)
  unfolding delete lookup
  delete-DistinctKeys k [] d = tt
  delete-DistinctKeys k ((j, w) ∷ m) d =
      ground (arith, delete-DistinctKeys k m d.1, lookup-delete k j m, d.0)

  pub keep_entries-DistinctKeys :
      (p : K → V → Bool) (m : Map K V) → DistinctKeys m → DistinctKeys (keep_entries p m)
  unfolding keep_entries
  keep_entries-DistinctKeys p [] d = tt
  keep_entries-DistinctKeys p ((j, w) ∷ m) d =
      ground (arith, keep_entries-DistinctKeys p m d.1, lookup-keep_entries-none p j m, d.0)

  pub lookup-cons_cases :
      (k j : K) (w v : V) (m : Map K V)
      → lookup k ((j, w) ∷ m) ≡ some v
      → (w ≡ v) ⊎ (lookup k m ≡ some v)
  unfolding lookup
  lookup-cons_cases k j w v m h = ground arith

  pub lookup-cons_later :
      (k j : K) (w v : V) (m : Map K V)
      → DistinctKeys ((j, w) ∷ m)
      → lookup k m ≡ some v
      → lookup k ((j, w) ∷ m) ≡ some v
  unfolding lookup
  lookup-cons_later k j w v m d h = ground (arith, ==_iff j k, d.0)

  pub length-insert_le : (k : K) (v : V) (m : Map K V) → length (insert k v m) ≤ length m + 1
  unfolding insert
  length-insert_le k v [] = omega arith
  length-insert_le k v ((j, w) ∷ m) = ground (arith, length-insert_le k v m)

  pub length-insert_known :
      (k : K) (v w : V) (m : Map K V) → lookup k m ≡ some w → length (insert k v m) ≡ length m
  unfolding insert lookup
  length-insert_known k v w [] h = ground arith
  length-insert_known k v w ((j, u) ∷ m) h = ground (arith, length-insert_known k v w m)

  pub length-keep_entries_le :
      (p : K → V → Bool) (m : Map K V) → length (keep_entries p m) ≤ length m
  unfolding keep_entries
  length-keep_entries_le p [] = omega arith
  length-keep_entries_le p ((j, w) ∷ m) = ground (arith, length-keep_entries_le p m)
