-- ===== src/ToolCalling/Ledger/Compact.antt =====
-- pkg/toolcalling/ledger.go: the size of what the ledger carries.
use m365plus.Base.{
  ℕ, zero, suc, ◌+◌, ◌-◌, ◌/◌, ◌%◌, ◌≤◌, ◌<◌, ◌≡◌, ◌⊎◌, inl, inr, [], ◌∷◌, ◌++◌, arith, leb,
  Bool-cases, length, take, drop, length-append, length-take, length-drop, Bytes,
}
use m365plus.Base.Text.{codes, trim_space}
use m365plus.ToolCalling.Ledger.{max_evidence_result, itoa_fuel, itoa, compact_result}

length-itoa_fuel-le : (fuel n : ℕ) → length (itoa_fuel fuel n) ≤ fuel
unfolding itoa_fuel
length-itoa_fuel-le zero n = omega arith
length-itoa_fuel-le (suc fuel) n = ground (
  arith,
  length-itoa_fuel-le fuel (n / 10),
  length-append (itoa_fuel fuel (n / 10)) ((48 + n % 10) ∷ []),
)

length-cut :
    (text : Bytes) (n : ℕ)
    → 4000 < length text
    → length (
        take 1333 text
        ++ (codes "\n... [truncated "
            ++ (itoa n ++ (codes " bytes] ...\n" ++ drop (length text - 2587) text))))
      ≤ 4000
length-cut text n long = omega (
  arith,
  length-itoa_fuel-le 19 n,
  length-take 1333 text,
  length-drop (length text - 2587) text,
  length-append {0} (take 1333 text),
  length-append {0} (itoa n),
)

-- A compacted result is never longer than the limit, its marker included, and it is the trimmed
-- result unless that is longer than the limit.
pub compact_result-bounded :
    (result : Bytes)
    → (length (compact_result result) ≤ max_evidence_result)
      × ((compact_result result ≡ trim_space result)
          ⊎ (max_evidence_result < length (trim_space result)))
unfolding compact_result
compact_result-bounded result =
    elim (Bool-cases (leb (length (trim_space result)) max_evidence_result)) [
      | inl short ↦ (rw short (ground arith), inl (rw short))
      | inr long ↦ (rw long (length-cut (trim_space result) _ (ground arith)), inr (ground arith))
    ]
