-- ===== src/ToolCalling/Schema/Sound.antt =====
-- pkg/toolcalling/schema.go: `ValidateAndPrune` against a check and a pruning that are apart.
use m365plus.Base.{
  ℕ, ◌+◌, Bool, true, false, not, ◌&&◌, ◌||◌, [], ◌∷◌, ◌++◌, Option, none, some, bytes_eq,
  if◌then◌else◌, Bytes, ◌≡◌, refl, subst, ◌⊎◌, inl, inr, Bool-cases,
}
use m365plus.ToolCalling.Json.{
  Json, null, bool, num, str, arr, obj, Items, nil, cons, Fields, end, field, get, has, as_obj,
  or_end, is_end,
}
use m365plus.ToolCalling.Schema.{
  key, place, Where, Violation, missing, not_allowed, wrong_type, Checked, ok, bad, map_ok, both_ok,
  first_missing, required_from_schema, schema_type, properties_of, item_schema_of, is_closed,
  is_known_type, type_fits, enum_allows, guarded, or_missing, validate_node, validate_fields,
  validate_items, validate_and_prune,
}

abbrev pub is_none : Option Bytes → Bool
is_none none = true
is_none (some _) = false

-- The arguments without the keys that the schema does not declare and forbids, at any depth.
unfoldable mutual
  pub prune : Json → Fields → Json
  prune (obj fs) schema =
      if is_end schema || not (is_known_type (schema_type schema))
      then obj fs
      else obj (prune_fields fs (properties_of schema) (is_closed schema))
  prune (arr xs) schema =
      if is_end schema || not (is_known_type (schema_type schema))
      then arr xs
      else arr (prune_items xs (item_schema_of schema))
  prune null schema = null
  prune (bool b) schema = bool b
  prune (num n) schema = num n
  prune (str s) schema = str s

  pub prune_fields : Fields → Fields → Bool → Fields
  prune_fields end properties closed = end
  prune_fields (field k v fs) properties closed =
      let rest = prune_fields fs properties closed in
      let child = prune v (or_end (as_obj (get k properties))) in
      if closed && not (has k properties) then rest else field k child rest

  pub prune_items : Items → Fields → Items
  prune_items nil schema = nil
  prune_items (cons v vs) schema = cons (prune v schema) (prune_items vs schema)

module _ (encode : Json → Bytes) where
  -- What a schema asks of a value itself, and of what is in it where its type is known.
  abbrev pub meets : Fields → Json → Bool → Bool
  meets schema v inner =
      is_end schema
      || (enum_allows encode schema v
          && (type_fits (schema_type schema) v
              && (not (is_known_type (schema_type schema)) || inner)))

  -- Whether a value conforms to a schema, in which undeclared keys do not count.
  unfoldable mutual
    pub conforms : Json → Fields → Bool
    conforms (obj fs) schema = meets schema (obj fs) (
        is_none (first_missing (required_from_schema schema) fs)
        && conforms_fields fs (properties_of schema) (is_closed schema))
    conforms (arr xs) schema = meets schema (arr xs) (conforms_items xs (item_schema_of schema))
    conforms null schema = meets schema null true
    conforms (bool b) schema = meets schema (bool b) true
    conforms (num n) schema = meets schema (num n) true
    conforms (str s) schema = meets schema (str s) true

    pub conforms_fields : Fields → Fields → Bool → Bool
    conforms_fields end properties closed = true
    conforms_fields (field k v fs) properties closed =
        let rest = conforms_fields fs properties closed in
        let child = conforms v (or_end (as_obj (get k properties))) in
        if closed && not (has k properties) then rest else child && rest

    pub conforms_items : Items → Fields → Bool
    conforms_items nil schema = true
    conforms_items (cons v vs) schema = conforms v schema && conforms_items vs schema

  -- A check answers the pruned value where the test holds, and an error where it does not.
  abbrev pub Verdict {ℓ} : {A : Type ℓ} → Bool → A → Checked A → Type ℓ
  Verdict c w r = ((c ≡ true) × (r ≡ ok w)) ⊎ ((c ≡ false) × (e : Violation) × (r ≡ bad e))

  map_ok-Verdict {ℓ κ} :
      {A : Type ℓ} {B : Type κ} (f : A → B) (c : Bool) (w : A) (r : Checked A)
      → Verdict c w r
      → Verdict c (f w) (map_ok f r)
  map_ok-Verdict f c w r (inl (h, e)) = inl (h, rw e refl)
  map_ok-Verdict f c w r (inr (h, v, e)) = inr (h, v, rw e refl)

  both_ok-Verdict {ℓ κ μ} :
      {A : Type ℓ} {B : Type κ} {C : Type μ} (f : A → B → C) (c d : Bool) (v : A) (w : B)
      (r : Checked A) (s : Checked B)
      → Verdict c v r
      → Verdict d w s
      → Verdict (c && d) (f v w) (both_ok f r s)
  both_ok-Verdict f c d v w r s (inl (h, e)) (inl (k, g)) = inl (rw (h, k) refl, rw (e, g) refl)
  both_ok-Verdict f c d v w r s (inl (h, e)) (inr (k, x, g)) =
      inr (rw (h, k) refl, x, rw (e, g) refl)
  both_ok-Verdict f c d v w r s (inr (h, x, e)) k = inr (rw h refl, x, rw e refl)

  guard-Verdict :
      (e a f k c : Bool) (v w : Json) (x y : Violation) (inner : Checked Json)
      → Verdict c w inner
      → Verdict (e || (a && (f && (not k || c)))) (if e || not k then v else w) (
          if e
          then ok v
          else if not a
          then bad x
          else if not f
          then bad y
          else if k
          then inner
          else ok v)
  guard-Verdict true a f k c v w x y inner h = inl (refl, refl)
  guard-Verdict false false f k c v w x y inner h = inr (refl, x, refl)
  guard-Verdict false true false k c v w x y inner h = inr (refl, y, refl)
  guard-Verdict false true true false c v w x y inner h = inl (refl, refl)
  guard-Verdict false true true true c v w x y inner h = h

  guarded-Verdict :
      (schema : Fields) (v w : Json) (at : Where) (c : Bool) (inner : Checked Json)
      → Verdict c w inner
      → Verdict
          (meets schema v c)
          (if is_end schema || not (is_known_type (schema_type schema)) then v else w)
          (guarded encode schema v at inner)
  guarded-Verdict schema v w at c inner h =
      guard-Verdict (is_end schema) (enum_allows encode schema v) (type_fits (schema_type schema) v)
        (is_known_type (schema_type schema)) c v w (not_allowed at)
        (wrong_type at (schema_type schema)) inner h

  leaf-Verdict :
      (schema : Fields) (v : Json) (at : Where)
      → Verdict (meets schema v true) v (guarded encode schema v at (ok v))
  leaf-Verdict schema v at =
      subst (λ x. Verdict (meets schema v true) x (guarded encode schema v at (ok v)))
        (same (is_end schema || not (is_known_type (schema_type schema))))
        (guarded-Verdict schema v v at true (ok v) (inl (refl, refl)))
    where
      same : (b : Bool) → (if b then v else v) ≡ v
      same true = refl
      same false = refl

  or_missing-Verdict :
      (o : Option Bytes) (at : Where) (c : Bool) (w : Json) (inner : Checked Json)
      → Verdict c w inner
      → Verdict (is_none o && c) w (or_missing o at inner)
  or_missing-Verdict none at c w inner h = h
  or_missing-Verdict (some n) at c w inner h = inr (refl, missing at n, refl)

  -- A key that is pruned counts for nothing.
  skipped-Verdict :
      (b c d : Bool) (v w : Fields) (r s : Checked Fields)
      → Verdict c v r
      → Verdict d w s
      → Verdict (if b then c else d) (if b then v else w) (if b then r else s)
  skipped-Verdict true c d v w r s h k = h
  skipped-Verdict false c d v w r s h k = k

  mutual
    unfolding validate_node conforms prune

    validate_node-Verdict :
        (v : Json) (schema : Fields) (at : Where)
        → Verdict (conforms v schema) (prune v schema) (validate_node encode v schema at)
    validate_node-Verdict (obj fs) schema at = guarded-Verdict schema (obj fs) _ at _ _ (
        or_missing-Verdict (first_missing (required_from_schema schema) fs) at _ _ _ (
          map_ok-Verdict obj _ _ _
            (validate_fields-Verdict fs (properties_of schema) (is_closed schema) at)))
    validate_node-Verdict (arr xs) schema at =
        guarded-Verdict schema (arr xs) _ at _ _
          (map_ok-Verdict arr _ _ _ (validate_items-Verdict xs (item_schema_of schema) at 0))
    validate_node-Verdict null schema at = leaf-Verdict schema null at
    validate_node-Verdict (bool b) schema at = leaf-Verdict schema (bool b) at
    validate_node-Verdict (num n) schema at = leaf-Verdict schema (num n) at
    validate_node-Verdict (str s) schema at = leaf-Verdict schema (str s) at

    validate_fields-Verdict :
        (fs properties : Fields) (closed : Bool) (at : Where)
        → Verdict
            (conforms_fields fs properties closed)
            (prune_fields fs properties closed)
            (validate_fields encode fs properties closed at)
    validate_fields-Verdict end properties closed at = inl (refl, refl)
    validate_fields-Verdict (field k v fs) properties closed at =
        skipped-Verdict (closed && not (has k properties)) _ _ _ _ _ _
          (validate_fields-Verdict fs properties closed at)
          (both_ok-Verdict (field k) _ _ _ _ _ _
            (validate_node-Verdict v (or_end (as_obj (get k properties))) (at ++ key k ∷ []))
            (validate_fields-Verdict fs properties closed at))

    validate_items-Verdict :
        (xs : Items) (schema : Fields) (at : Where) (i : ℕ)
        → Verdict
            (conforms_items xs schema)
            (prune_items xs schema)
            (validate_items encode xs schema at i)
    validate_items-Verdict nil schema at i = inl (refl, refl)
    validate_items-Verdict (cons v vs) schema at i =
        both_ok-Verdict cons _ _ _ _ _ _ (validate_node-Verdict v schema (at ++ place i ∷ []))
          (validate_items-Verdict vs schema at (i + 1))

  -- `ValidateAndPrune` answers the arguments without the keys that the schema forbids exactly if
  -- they conform to the schema, at every depth, and otherwise an error.
  pub validate_and_prune-Verdict :
      (args schema : Fields)
      → Verdict
          (conforms (obj args) schema)
          (prune (obj args) schema)
          (validate_and_prune encode args schema)
  unfolding validate_and_prune
  validate_and_prune-Verdict args schema = validate_node-Verdict (obj args) schema []

-- Whether every key of an object is one that its schema declares, where it allows no other.
abbrev pub declares_all : Fields → Fields → Bool
declares_all end properties = true
declares_all (field k v fs) properties = has k properties && declares_all fs properties

prune_fields_closed :
    (fs properties : Fields) → declares_all (prune_fields fs properties true) properties ≡ true
unfolding prune
prune_fields_closed end properties = refl
prune_fields_closed (field k v fs) properties = elim (Bool-cases (has k properties)) [
  | inl e ↦ rw (e, prune_fields, e) (prune_fields_closed fs properties)
  | inr e ↦ rw (e, prune_fields) (prune_fields_closed fs properties)
]
