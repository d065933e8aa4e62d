-- ===== src/ToolCalling/Candidates/Balanced.antt =====
-- pkg/toolcalling/simulated.go: the segments that `extractBalancedJSONSegment` cuts out.
use m365plus.Base.{
  ℕ, ◌+◌, ◌-◌, ◌≤◌, ◌≡◌, ◌≢◌, refl, ap, sym, ◌∙◌, subst, ◌⊎◌, inl, inr, false, [], ◌∷◌, ◌++◌,
  Option, none, some, ◌==◌, ==_iff, ==_refl, nat_eq, bytes_eq, Bool-cases, Option-cases,
  if◌then◌else◌, Bytes, arith,
}
use m365plus.Base.Text.{trim_space}
use m365plus.ToolCalling.Candidates.{
  Balance, plain, quoted, escaped, closed, next_balance, cons_byte, until_closed, scan_balanced,
  closing_of, or_blank, extract_balanced_json_segment,
}

-- How a reader of JSON text stands to its strings.
pub data Quote : Type 0 where
  outside : Quote
  inside : Quote
  behind_backslash : Quote

abbrev pub next_quote : Quote → ℕ → Quote
next_quote outside ch = if ch == b'"' then inside else outside
next_quote inside ch =
    if ch == b'\\' then behind_backslash else if ch == b'"' then outside else inside
next_quote behind_backslash ch = inside

-- How often a byte stands outside the strings of a text.
abbrev pub hit : Quote → ℕ → ℕ → ℕ
hit outside b ch = if ch == b'"' then 0 else if ch == b then 1 else 0
hit inside b ch = 0
hit behind_backslash b ch = 0

unfoldable pub count : Quote → ℕ → Bytes → ℕ
count q b [] = 0
count q b (ch ∷ s) = hit q b ch + count (next_quote q ch) b s

abbrev pub at_depth : Quote → ℕ → Balance
at_depth outside d = plain d
at_depth inside d = quoted d
at_depth behind_backslash d = escaped d

-- The start of a text, with as many closing brackets outside strings as close what is open.
abbrev pub Closes : ℕ → ℕ → ℕ → Quote → Bytes → Bytes → Type 0
Closes opening closing d q s seg =
    (rest : Bytes) × (s ≡ seg ++ rest) × (count q closing seg ≡ d + count q opening seg)

-- What a byte does at a depth.
abbrev pub Moves : ℕ → ℕ → ℕ → Quote → ℕ → Balance → Type 0
Moves opening closing d q ch after =
    ((after ≡ closed) × (d ≡ 1) × (hit q closing ch ≡ 1) × (hit q opening ch ≡ 0))
    ⊎ ((e : ℕ) × (after ≡ at_depth (next_quote q ch) e)
        × (d + hit q opening ch ≡ e + hit q closing ch)
        × (1 ≤ e))

next_balance-Moves :
    (opening closing d ch : ℕ) (q : Quote)
    → opening ≢ closing
    → 1 ≤ d
    → Moves opening closing d q ch (next_balance opening closing (at_depth q d) ch)
unfolding next_balance
next_balance-Moves opening closing d ch outside ne h = elim (Bool-cases (ch == b'"')) [
  | inl e ↦ rw e (inr (d, refl, refl, h))
  | inr e ↦ elim (Bool-cases (ch == opening)) [
    | inl o ↦
        rw (e, o)
          (inr (d + 1, refl, ground (arith, ==_iff ch opening, ==_iff ch closing), omega arith))
    | inr o ↦ elim (Bool-cases (ch == closing)) [
      | inl c ↦ elim (Bool-cases (d == 1)) [
        | inl one ↦ rw (e, o, c, one) (inl (refl, ground arith, refl, refl))
        | inr more ↦ rw (e, o, c, more) (inr (d - 1, refl, ground arith, ground arith))
      ]
      | inr c ↦ rw (e, o, c) (inr (d, refl, refl, h))
    ]
  ]
]
next_balance-Moves opening closing d ch inside ne h = elim (Bool-cases (ch == b'\\')) [
  | inl e ↦ rw e (inr (d, refl, refl, h))
  | inr e ↦ elim (Bool-cases (ch == b'"')) [
    | inl o ↦ rw (e, o) (inr (d, refl, refl, h))
    | inr o ↦ rw (e, o) (inr (d, refl, refl, h))
  ]
]
next_balance-Moves opening closing d ch behind_backslash ne h = inr (d, refl, refl, h)

until_closed-at_depth :
    (q : Quote) (d ch : ℕ) (rest : Option Bytes)
    → until_closed (at_depth q d) ch rest ≡ cons_byte ch rest
until_closed-at_depth outside d ch rest = refl
until_closed-at_depth inside d ch rest = refl
until_closed-at_depth behind_backslash d ch rest = refl

cons_byte-some :
    (ch : ℕ) (o : Option Bytes) (seg : Bytes)
    → cons_byte ch o ≡ some seg
    → (t : Bytes) × (o ≡ some t) × (ch ∷ t ≡ seg)
cons_byte-some ch none seg h = ground arith
cons_byte-some ch (some t) seg h = (t, refl, ground arith)

some_apart : (x y : Bytes) → some x ≡ some y → x ≡ y
some_apart x y h = ground arith

scan_balanced-Closes :
    (opening closing d : ℕ) (q : Quote) (s seg : Bytes)
    → opening ≢ closing
    → 1 ≤ d
    → scan_balanced opening closing (at_depth q d) s ≡ some seg
    → Closes opening closing d q s seg
unfolding scan_balanced count
scan_balanced-Closes opening closing d q [] seg ne le h = ground arith
scan_balanced-Closes opening closing d q (ch ∷ s) seg ne le h =
    elim (next_balance-Moves opening closing d ch q ne le) [
      | inl (shut, one, hc, ho) ↦
          subst (Closes opening closing d q (ch ∷ s))
            (some_apart (ch ∷ []) seg (sym (ap after shut) ∙ h))
            (s, refl, omega (arith, one, hc, ho))
      | inr (e, moved, sum, deep) ↦
          let go_on =
            sym (
              until_closed-at_depth (next_quote q ch) e ch
                (rest_from (at_depth (next_quote q ch) e)))
            ∙ (sym (ap after moved) ∙ h) in
          let (t, rest_found, whole) =
            cons_byte-some ch (rest_from (at_depth (next_quote q ch) e)) seg go_on in
          let (rest, split, counts) =
            scan_balanced-Closes opening closing e (next_quote q ch) s t ne deep rest_found in
          subst (Closes opening closing d q (ch ∷ s)) whole
            (rest, ap (◌∷◌ ch) split, omega (arith, sum, counts))
    ]
  where
    rest_from : Balance → Option Bytes
    rest_from b = scan_balanced opening closing b s

    after : Balance → Option Bytes
    after b = until_closed b ch (rest_from b)

scan_balanced_opening :
    (opening closing : ℕ) (s : Bytes)
    → (opening == b'"') ≡ false
    → scan_balanced opening closing (plain 0) (opening ∷ s)
      ≡ cons_byte opening (scan_balanced opening closing (plain 1) s)
unfolding scan_balanced next_balance
scan_balanced_opening opening closing s h = rw (h, ==_refl opening) refl

counted :
    (opening closing : ℕ) (t : Bytes)
    → (opening == b'"') ≡ false
    → opening ≢ closing
    → count outside closing t ≡ 1 + count outside opening t
    → count outside closing (opening ∷ t) ≡ count outside opening (opening ∷ t)
unfolding count
counted opening closing t h ne c = rw (h, ==_refl opening) (ground (arith, ==_iff opening closing))

-- A segment cut out at a bracket is, trimmed, the start of the text at it in which as many brackets
-- of its kind close as open, those in strings not counted.
pub extract_balanced_json_segment-count :
    (opening : ℕ) (s : Bytes)
    → (opening ≡ b'{') ⊎ (opening ≡ b'[')
    → extract_balanced_json_segment opening (opening ∷ s) ≢ []
    → (seg : Bytes) × (rest : Bytes) × (opening ∷ s ≡ seg ++ rest)
      × (extract_balanced_json_segment opening (opening ∷ s) ≡ trim_space seg)
      × (count outside (closing_of opening) seg ≡ count outside opening seg)
unfolding extract_balanced_json_segment
extract_balanced_json_segment-count opening s kind found =
    let unquoted : (opening == b'"') ≡ false = ground (arith, kind) in
    let apart : opening ≢ closing_of opening = λ e. ground (arith, kind, ==_iff opening b'{') in
    let opened = scan_balanced_opening opening (closing_of opening) s unquoted in
    elim (Option-cases (scan_balanced opening (closing_of opening) (plain 1) s)) [
      | inl e ↦ absurd (found (ap or_blank (opened ∙ ap (cons_byte opening) e)))
      | inr (t, e) ↦
          let (rest, split, counts) =
            scan_balanced-Closes opening (closing_of opening) 1 outside s t apart (omega arith) e in
          (
            opening ∷ t,
            rest,
            ap (◌∷◌ opening) split,
            ap or_blank (opened ∙ ap (cons_byte opening) e),
            counted opening (closing_of opening) t unquoted apart counts,
          )
    ]
