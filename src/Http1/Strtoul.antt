-- ===== src/Http1/Strtoul.antt =====
-- `strtoul`, as src/vtc_http.c uses it, in base 10 and 16.
pub mod Digits
use vtest.Base.{
  ℕ, suc, zero, ◌+◌, ◌-◌, ◌*◌, ◌^◌, ◌%◌, List, [], ◌∷◌, Bytes, Bool, true, false, ◌&&◌, ◌||◌, ◌==◌,
  ltb, leb, if◌then◌else◌, Option, none, some,
}
use vtest.Http1.Header.{skip}
use vtest.Script.{is_space}

-- The digit that the byte is, in a base up to 16
abbrev pub digit : ℕ → ℕ → Option ℕ
digit base c =
    let below = λ (d : ℕ). if ltb d base then some d else none in
    if leb 48 c && leb c 57
    then below (c - 48)
    else if leb 97 c && leb c 102
    then below (c - 87)
    else if leb 65 c && leb c 70
    then below (c - 55)
    else none

-- The digits at the start of a text, and what stands behind them
pub digits : ℕ → Bytes → List ℕ × Bytes
digits base [] = ([], [])
digits base (c ∷ cs) =
    let (ds, rest) = digits base cs in
    elim (digit base c) as (λ _. List ℕ × Bytes) [ none ↦ ([], c ∷ cs) | some d ↦ (d ∷ ds, rest) ]

abbrev pub value_from : ℕ → ℕ → List ℕ → ℕ
value_from base n [] = n
value_from base n (d ∷ ds) = value_from base (n * base + d) ds

-- A prefix 0x in front of a digit, for base 16
abbrev pub without_prefix : ℕ → Bytes → Bytes
without_prefix base (c ∷ d ∷ e ∷ cs) =
    if (base == 16) && ((c == 48) && ((d == 120) || (d == 88)))
    then elim (digit 16 e) [ none ↦ c ∷ d ∷ e ∷ cs | some v ↦ e ∷ cs ]
    else c ∷ d ∷ e ∷ cs
without_prefix base cs = cs

abbrev pub ulong_max : ℕ
ulong_max = 2 ^ 64 - 1

-- The value, no more than ULONG_MAX, and the pointer behind it; none where there is no number
abbrev pub number_of : ℕ → Bool → List ℕ × Bytes → Option (ℕ × Bytes)
number_of base minus ([], rest) = none
number_of base minus (d ∷ ds, rest) =
    let v = value_from base 0 (d ∷ ds) in
    some ((if ltb ulong_max v then ulong_max else if minus then (2 ^ 64 - v) % 2 ^ 64 else v), rest)

abbrev pub unsigned : ℕ → Bool → Bytes → Option (ℕ × Bytes)
unsigned base minus cs = number_of base minus (digits base (without_prefix base cs))

abbrev pub signed : ℕ → Bytes → Option (ℕ × Bytes)
signed base [] = none
signed base (c ∷ cs) =
    if c == 45
    then unsigned base true cs
    else if c == 43
    then unsigned base false cs
    else unsigned base false (c ∷ cs)

-- strtoul in base 10 or 16
pub strtoul : ℕ → Bytes → Option (ℕ × Bytes)
strtoul base cs = signed base (skip is_space cs)
