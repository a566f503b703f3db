-- ===== src/Http1/Strtoul/Digits.antt =====
-- Numbers written in digits, and what `strtoul` reads of them for src/vtc_http.c.
use vtest.Base.{
  ℕ, ◌+◌, ◌-◌, ◌^◌, ◌≤◌, ◌<◌, ◌≡◌, refl, ap, ◌∙◌, ◌⊎◌, List, [], ◌∷◌, ◌++◌, Bytes, map, true, false,
  ◌==◌, ltb, leb, if◌then◌else◌, some, arith, All, Bool-cases, inl, inr,
}
use vtest.Http1.Strtoul.{
  digit, digits, value_from, without_prefix, ulong_max, number_of, unsigned, strtoul,
}
use vtest.Http1.Header.{skip}
use vtest.Script.{is_space}

-- The digit as printf writes it
abbrev pub digit_char : ℕ → ℕ
digit_char d = if ltb d 10 then d + 48 else d + 87

abbrev pub numeral : List ℕ → Bytes
numeral ds = map digit_char ds

-- The text behind a number: its end, or the end of its line
abbrev pub EndsNumber : Bytes → Type 0
EndsNumber [] = Unit
EndsNumber (c ∷ cs) = c ≡ 13

abbrev pub Below : ℕ → ℕ → Type 0
Below base d = d < base

abbrev pub IsBase : ℕ → Type 0
IsBase base = (base ≡ 10) ⊎ (base ≡ 16)

IsBase-le : (base : ℕ) → IsBase base → base ≤ 16
IsBase-le base (inl e) = omega (arith, e)
IsBase-le base (inr e) = omega (arith, e)

digit-digit_char : (base d : ℕ) → d < base → base ≤ 16 → digit base (digit_char d) ≡ some d
digit-digit_char base d small few = elim (Bool-cases (ltb d 10)) [
  | inl low ↦
      let same : d + 48 - 48 ≡ d = omega arith in
      let a : leb 48 (d + 48) ≡ true = ground arith in
      let b : leb (d + 48) 57 ≡ true = ground (arith, low) in
      let fits : ltb d base ≡ true = ground (arith, small) in rw (low, a, b, same, fits) refl
  | inr high ↦
      let same : d + 87 - 87 ≡ d = omega arith in
      let a : leb (d + 87) 57 ≡ false = ground arith in
      let a' : leb 48 (d + 87) ≡ true = ground arith in
      let b : leb 97 (d + 87) ≡ true = ground (arith, high) in
      let b' : leb (d + 87) 102 ≡ true = ground (arith, small, few) in
      let fits : ltb d base ≡ true = ground (arith, small) in
      rw (high, a, a', b, b', same, fits) refl
]

-- A digit is neither white space, nor a sign, nor an x.
digit_char-plain :
    (d : ℕ)
    → d < 16
    → (is_space (digit_char d) ≡ false)
      × ((digit_char d == 45) ≡ false)
      × ((digit_char d == 43) ≡ false)
      × ((digit_char d == 120) ≡ false)
      × ((digit_char d == 88) ≡ false)
digit_char-plain d h = elim (Bool-cases (ltb d 10)) [
  | inl low ↦
      rw low
        (ground (arith, low), ground arith, ground arith, ground (arith, low), ground (arith, low))
  | inr high ↦
      rw high
        (ground (arith, high, h), ground arith, ground arith, ground (arith, h), ground (arith, h))
]

digits-numeral :
    (base : ℕ) (ds : List ℕ) (rest : Bytes)
    → base ≤ 16
    → All (Below base) ds
    → EndsNumber rest
    → digits base (numeral ds ++ rest) ≡ (ds, rest)
unfolding digits
digits-numeral base [] [] few h e = refl
digits-numeral base [] (c ∷ cs) few h e = rw e refl
digits-numeral base (d ∷ ds) rest few (h, hs) e =
    rw (digits, digit-digit_char base d h few, digits-numeral base ds rest few hs e) refl

without_prefix-same :
    (base c d : ℕ) (cs : Bytes)
    → (d == 120) ≡ false
    → (d == 88) ≡ false
    → without_prefix base (c ∷ d ∷ cs) ≡ c ∷ d ∷ cs
without_prefix-same base c d [] h k = refl
without_prefix-same base c d (e ∷ cs) h k = elim (Bool-cases (base == 16)) [
  | inl hex ↦ elim (Bool-cases (c == 48)) [
    | inl z ↦ rw (hex, z, h, k) refl
    | inr n ↦ rw (hex, n) refl
  ]
  | inr other ↦ rw other refl
]

without_prefix-numeral :
    (base : ℕ) (ds : List ℕ) (rest : Bytes)
    → base ≤ 16
    → All (Below base) ds
    → EndsNumber rest
    → without_prefix base (numeral ds ++ rest) ≡ numeral ds ++ rest
without_prefix-numeral base [] [] few h e = refl
without_prefix-numeral base [] (c ∷ []) few h e = refl
without_prefix-numeral base [] (c ∷ d ∷ []) few h e = refl
without_prefix-numeral base [] (c ∷ d ∷ f ∷ cs) few h e =
    let no_zero : (c == 48) ≡ false = ground (arith, e) in
    elim (Bool-cases (base == 16)) [ inl hex ↦ rw (hex, no_zero) refl | inr other ↦ rw other refl ]
without_prefix-numeral base (d ∷ []) [] few h e = refl
without_prefix-numeral base (d ∷ []) (c ∷ cs) few h e =
    without_prefix-same base (digit_char d) c cs (ground (arith, e)) (ground (arith, e))
without_prefix-numeral base (d ∷ d' ∷ ds) rest few (h, (h', hs)) e =
    let (a, b, c, x, x') = digit_char-plain d' (omega (arith, h', few)) in
    without_prefix-same base (digit_char d) (digit_char d') (numeral ds ++ rest) x x'

-- `strtoul` reads a number below 2 ^ 63 back from its digits, whatever zeros they begin with.
pub strtoul-numeral :
    (base d : ℕ) (ds : List ℕ) (rest : Bytes)
    → IsBase base
    → All (Below base) (d ∷ ds)
    → EndsNumber rest
    → value_from base 0 (d ∷ ds) < 2 ^ 63
    → strtoul base (numeral (d ∷ ds) ++ rest) ≡ some (value_from base 0 (d ∷ ds), rest)
unfolding strtoul skip
strtoul-numeral base d ds rest is_base (h, hs) e small =
    let few = IsBase-le base is_base in
    let (no_space, no_minus, no_plus, x, x2) = digit_char-plain d (omega (arith, h, few)) in
    let prefix = without_prefix-numeral base (d ∷ ds) rest few (h, hs) e in
    let read = digits-numeral base (d ∷ ds) rest few (h, hs) e in
    let fits : ltb ulong_max (value_from base 0 (d ∷ ds)) ≡ false = ground (arith, small) in
    let number : unsigned base false (numeral (d ∷ ds) ++ rest)
        ≡ some (value_from base 0 (d ∷ ds), rest) =
      ap (number_of base false) (ap (digits base) prefix ∙ read) ∙ rw fits refl in
    rw (no_space, no_minus, no_plus) number
