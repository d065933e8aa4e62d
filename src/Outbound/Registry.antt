-- ===== src/Outbound/Registry.antt =====
-- pkg/webadmin/outbound/pool.go: which proxies a pool holds after `NewPool` and `Remove`.
use m365plus.Base.{
  ◌≡◌, ◌≢◌, refl, inl, inr, String, true, false, not, ◌&&◌, ◌||◌, List, [], ◌∷◌, arith, ◌==◌,
  ==_iff, string_eq, if◌then◌else◌, Bool-cases, map, subst,
}
use m365plus.Outbound.{
  Entry, Pool, Result, ok, err, Result-cases, seen_before, cons_ok, fresh_entry, build_entries,
  as_pool, new_pool, remove_first, remove,
}

module _ {C : Type 0} where
  -- No URL of the list is empty, among `seen`, or there twice.
  abbrev pub Distinct : List String → List (Entry C) → Type 0
  Distinct seen [] = Unit {0}
  Distinct seen (e ∷ es) =
      (e.raw ≢ "") × (seen_before e.raw seen ≡ false) × Distinct (e.raw ∷ seen) es

  abbrev OkDistinct : List String → Result (List (Entry C)) → Type 0
  OkDistinct seen (ok es) = Distinct seen es
  OkDistinct seen (err _) = Unit {0}

  cons_ok-OkDistinct :
      (seen : List String) (v : String) (c : C) (r : Result (List (Entry C)))
      → v ≢ ""
      → seen_before v seen ≡ false
      → OkDistinct (v ∷ seen) r
      → OkDistinct seen (cons_ok (fresh_entry v c) r)
  cons_ok-OkDistinct seen v c (ok es) a b d = (a, b, d)
  cons_ok-OkDistinct seen v c (err m) a b d = tt

  build_entries-OkDistinct :
      (new : String → Result C) (seen raws : List String)
      → OkDistinct seen (build_entries new seen raws)
  unfolding build_entries
  build_entries-OkDistinct new seen [] = tt
  build_entries-OkDistinct new seen (v ∷ raws) = elim (Bool-cases (v == "" || seen_before v seen)) [
    | inl skip ↦ rw skip (build_entries-OkDistinct new seen raws)
    | inr keep ↦ rw keep (elim (Result-cases (new v)) [
      | inl (c, made) ↦ rw made (
          cons_ok-OkDistinct seen v c _ (ground (arith, ==_iff v "")) (ground arith)
            (build_entries-OkDistinct new (v ∷ seen) raws))
      | inr (m, bad) ↦ rw bad tt
    ])
  ]

  abbrev OkHas : String → List String → List String → Result (List (Entry C)) → Type 0
  OkHas v seen raws (ok es) =
      seen_before v (map (λ e. e.raw) es)
      ≡ (seen_before v raws && not (v == "") && not (seen_before v seen))
  OkHas v seen raws (err _) = Unit {0}

  cons_ok-OkHas :
      (v w : String) (c : C) (seen raws : List String) (r : Result (List (Entry C)))
      → (w == "" || seen_before w seen) ≡ false
      → OkHas v (w ∷ seen) raws r
      → OkHas v seen (w ∷ raws) (cons_ok (fresh_entry w c) r)
  unfolding seen_before
  cons_ok-OkHas v w c seen raws (ok es) k h = ground (arith, ==_iff w v)
  cons_ok-OkHas v w c seen raws (err m) k h = tt

  skip-OkHas :
      (v w : String) (seen raws : List String) (r : Result (List (Entry C)))
      → (w == "" || seen_before w seen) ≡ true
      → OkHas v seen raws r
      → OkHas v seen (w ∷ raws) r
  unfolding seen_before
  skip-OkHas v w seen raws (ok es) k h = ground (arith, ==_iff w v)
  skip-OkHas v w seen raws (err m) k h = tt

  build_entries-OkHas :
      (new : String → Result C) (v : String) (seen raws : List String)
      → OkHas v seen raws (build_entries new seen raws)
  unfolding build_entries
  build_entries-OkHas new v seen [] = unfold seen_before in refl
  build_entries-OkHas new v seen (w ∷ raws) = elim (Bool-cases (w == "" || seen_before w seen)) [
    | inl skip ↦ rw skip (skip-OkHas v w seen raws _ skip (build_entries-OkHas new v seen raws))
    | inr keep ↦ rw keep (elim (Result-cases (new w)) [
      | inl (c, made) ↦
          rw made (cons_ok-OkHas v w c seen raws _ keep (build_entries-OkHas new v (w ∷ seen) raws))
      | inr (m, bad) ↦ rw bad tt
    ])
  ]

  -- A pool that `NewPool` builds holds exactly the URLs of its input but the empty one, each once.
  pub new_pool_holds :
      (new : String → Result C) (raws : List String) (p : Pool C)
      → new_pool new raws ≡ ok p
      → Distinct [] p.entries
        × ((v : String)
            → seen_before v (map (λ e. e.raw) p.entries) ≡ (seen_before v raws && not (v == "")))
  unfolding new_pool seen_before
  new_pool_holds new raws p h =
      go (build_entries new [] raws) (build_entries-OkDistinct new [] raws)
        (λ v. build_entries-OkHas new v [] raws) h
    where
      go :
          (r : Result (List (Entry C)))
          → OkDistinct [] r
          → ((v : String) → OkHas v [] raws r)
          → as_pool r ≡ ok p
          → Distinct [] p.entries
            × ((v : String)
                → seen_before v (map (λ e. e.raw) p.entries)
                  ≡ (seen_before v raws && not (v == "")))
      go (ok es) d has e =
          let same : es ≡ p.entries = ground arith in
          subst
            (λ xs.
              Distinct [] xs
              × ((v : String)
                  → seen_before v (map (λ x. x.raw) xs) ≡ (seen_before v raws && not (v == ""))))
            same (d, λ v. ground (arith, has v))
      go (err m) d has e = cc

  seen_before-Distinct :
      (v : String) (seen : List String) (es : List (Entry C))
      → Distinct seen es
      → seen_before v seen ≡ true
      → seen_before v (map (λ e. e.raw) es) ≡ false
  unfolding seen_before
  seen_before-Distinct v seen [] d h = refl
  seen_before-Distinct v seen (e ∷ es) d h =
      ground (arith, ==_iff e.raw v, seen_before-Distinct v (e.raw ∷ seen) es)

  remove_first-Distinct :
      (raw v : String) (seen : List String) (es : List (Entry C))
      → Distinct seen es
      → seen_before v (map (λ e. e.raw) (remove_first raw es))
        ≡ (if raw == v then false else seen_before v (map (λ e. e.raw) es))
  unfolding seen_before remove_first
  remove_first-Distinct raw v seen [] d = ground arith
  remove_first-Distinct raw v seen (e ∷ es) d = ground (
    arith,
    ==_iff e.raw raw,
    ==_iff e.raw v,
    ==_iff raw v,
    remove_first-Distinct raw v (e.raw ∷ seen) es,
    seen_before-Distinct v (e.raw ∷ seen) es,
  )

  -- With distinct URLs, `Remove` takes out the URL named and no other.
  pub remove_lem :
      (raw v : String) (p : Pool C)
      → Distinct [] p.entries
      → seen_before v (map (λ e. e.raw) (remove raw p).entries)
        ≡ (if raw == v then false else seen_before v (map (λ e. e.raw) p.entries))
  unfolding remove
  remove_lem raw v p d = remove_first-Distinct raw v [] p.entries d
