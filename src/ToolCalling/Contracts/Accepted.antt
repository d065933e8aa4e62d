-- ===== src/ToolCalling/Contracts/Accepted.antt =====
-- pkg/toolcalling/schema.go: what `validate` lets through.
use m365plus.Base.{
  ◌≡◌, refl, ◌⊎◌, inl, inr, true, false, not, [], Option, none, some, ◌==◌, bytes_eq, Bytes,
  on_both, on_each, arith,
}
use m365plus.Base.Text.{codes}
use m365plus.ToolCalling.Json.{Json, null, obj, Fields, end, is_end}
use m365plus.ToolCalling.Schema.{
  Violation, missing, Checked, ok, bad, or_missing, enum_allows, type_fits, schema_type,
  is_known_type, first_missing, required_from_schema,
}
use m365plus.ToolCalling.Schema.Sound.{conforms, prune, validate_and_prune-Verdict}
use m365plus.ToolCalling.Contracts.{
  ToolContracts, choice_allows, required_of, schema_of, Validated, Decoded, nil_map, map_of, failed,
  as_map, tool_call_satisfies_required, validate_nil, checked_map, outcome, validate,
}

module _ (encode : Json → Bytes) (decode : Bytes → Option Json) where
  -- What becomes of arguments that decode and conform to a schema; null is forwarded as it is.
  abbrev pub Conforming : Fields → Bytes → Decoded → Type 0
  Conforming schema forwarded nil_map =
      (validate_nil encode decode schema ≡ ok null) × (forwarded ≡ encode null)
  Conforming schema forwarded (map_of fs) =
      (conforms encode (obj fs) schema ≡ true) × (forwarded ≡ encode (prune (obj fs) schema))
  Conforming schema forwarded failed = true ≡ false

  -- The contract of a tool, met by given arguments, and what is forwarded of them.
  abbrev pub Meets : ToolContracts → Bytes → Bytes → Bytes → Type 0
  Meets c name given forwarded =
      (choice_allows c name ≡ true)
      × (tool_call_satisfies_required encode decode given (required_of c name) ≡ true)
      × (((is_end (schema_of c name) ≡ true) × (forwarded ≡ given))
          ⊎ Conforming (schema_of c name) forwarded (as_map (decode given)))

  abbrev NilOrBad : Checked Json → Type 0
  NilOrBad r = (r ≡ ok null) ⊎ ((e : Violation) × (r ≡ bad e))

  or_missing-NilOrBad : (o : Option Bytes) → NilOrBad (or_missing o [] (ok null))
  or_missing-NilOrBad none = inl refl
  or_missing-NilOrBad (some n) = inr (missing [] n, refl)

  validate_nil-NilOrBad : (schema : Fields) → NilOrBad (validate_nil encode decode schema)
  unfolding validate_nil
  validate_nil-NilOrBad schema = on_both NilOrBad (is_end schema) (inl refl) (
      on_both NilOrBad (not (enum_allows encode schema null)) (inr (_, refl)) (
        on_both NilOrBad (not (type_fits (schema_type schema) (obj end))) (inr (_, refl)) (
          on_both NilOrBad (is_known_type (schema_type schema))
            (or_missing-NilOrBad (first_missing (required_from_schema schema) end)) (inl refl))))

  outcome-Conforming :
      (schema : Fields) (given : Bytes) (d : Decoded)
      → let r = outcome encode decode given (checked_map encode decode schema d) in
        r.reason ≡ none → Conforming schema r.arguments d
  outcome-Conforming schema given failed h = ground arith
  outcome-Conforming schema given nil_map h = elim (validate_nil-NilOrBad schema) [
    | inl e ↦ (e, rw e refl)
    | inr (v, e) ↦ ground arith
  ]
  outcome-Conforming schema given (map_of fs) h =
      elim (validate_and_prune-Verdict encode fs schema) [
        | inl (c, e) ↦ (c, rw e refl)
        | inr (c, v, e) ↦ ground arith
      ]

  abbrev Fine : ToolContracts → Bytes → Bytes → Validated → Type 0
  Fine c name given r = r.reason ≡ none → Meets c name given r.arguments

  -- Of arguments that `validate` accepts, `tool_choice` lets the tool be called, and each required
  -- argument was given a value that is not null or blank. Either the tool has no schema and they
  -- are forwarded as they are, or what was given is an object that conforms to the schema, which is
  -- forwarded without the keys that the schema forbids, or it is null, which is taken for an object
  -- without keys and is forwarded as null.
  pub validate-Meets :
      (c : ToolContracts) (name given : Bytes)
      → (validate encode decode c name given).reason ≡ none
      → Meets c name given (validate encode decode c name given).arguments
  unfolding validate
  validate-Meets c name given =
      on_each (Fine c name given) (not (choice_allows c name))
        (λ no.
          on_both (Fine c name given) (c.choice == codes "none") (λ h. ground arith)
            (λ h. ground arith))
        (λ allowed.
          on_each (Fine c name given)
            (not (tool_call_satisfies_required encode decode given (required_of c name)))
            (λ no h. ground arith)
            (λ filled.
              on_each (Fine c name given) (is_end (schema_of c name))
                (λ none_given h. (ground arith, ground arith, inl (none_given, refl)))
                (λ has_schema h. (
                  ground arith,
                  ground arith,
                  inr (outcome-Conforming (schema_of c name) given (as_map (decode given)) h),
                ))))
