-- ===== src/Subr/Hex.antt =====
-- Bytes that are written in hex come back (`vtc_hex_to_bin` of src/vtc_subr.c).
use vtest.Base.{
  codes, get_elem?, ◌⊎◌, inl, inr, zero, suc, ℕ, ◌+◌, ◌*◌, ◌^◌, ◌≡◌, refl, ap, ◌∙◌, List, [], ◌∷◌,
  ◌++◌, Bytes, true, false, some, ret, arith, All,
}
use mathlib.Core.Option.{some_inj}
use vtest.Subr.{hex_digit, is_gap, before, hex_loop, vtc_hex_to_bin}

-- A byte as it may be written: white space, a digit, white space, and another digit
pub record Written : Type 0 where
  pub gap1 : Bytes
  pub digit1 : ℕ
  pub gap2 : Bytes
  pub digit2 : ℕ

abbrev pub spelling : List Written → Bytes
spelling [] = []
spelling (w ∷ ws) = w.gap1 ++ w.digit1 ∷ (w.gap2 ++ w.digit2 ∷ spelling ws)

-- The digits of the values 0 to 15, in either case
abbrev lower : Bytes
lower = codes "0123456789abcdef"

abbrev upper : Bytes
upper = codes "0123456789ABCDEF"

abbrev pub IsDigit : ℕ → ℕ → Type 0
IsDigit c d = (get_elem? lower d ≡ some c) ⊎ (get_elem? upper d ≡ some c)

-- A space, a tab or a newline
abbrev pub IsGap : ℕ → Type 0
IsGap c = (c ≡ 32) ⊎ ((c ≡ 9) ⊎ (c ≡ 10))

-- The two digits of a byte, with gaps in front of them
abbrev pub Spells : Written → ℕ → Type 0
Spells w b =
    (h : ℕ) × (l : ℕ) × IsDigit w.digit1 h
    × IsDigit w.digit2 l
    × (b ≡ h * 16 + l)
    × All IsGap w.gap1
    × All IsGap w.gap2

abbrev pub AllSpell : List Written → Bytes → Type 0
AllSpell [] [] = Unit {0}
AllSpell (w ∷ ws) (b ∷ bs) = Spells w b × AllSpell ws bs
AllSpell _ _ = ⊥

-- The characters of a text are the digits from a value on.
abbrev Digits : Bytes → ℕ → Type 0
Digits [] n = Unit {0}
Digits (c ∷ cs) n = (hex_digit c ≡ some n) × Digits cs (suc n)

Digits-lem :
    (cs : Bytes) (n d c : ℕ) → Digits cs n → get_elem? cs d ≡ some c → hex_digit c ≡ some (n + d)
Digits-lem [] n d c h e = cc
Digits-lem (x ∷ cs) n zero c (h, hs) e =
    let same = some_inj.0 e in rw (← same, h) (ap some (omega arith))
Digits-lem (x ∷ cs) n (suc d) c (h, hs) e = Digits-lem cs (suc n) d c hs e ∙ ap some (omega arith)

hex_digit-IsDigit : (c d : ℕ) → IsDigit c d → hex_digit c ≡ some d
unfolding hex_digit
hex_digit-IsDigit c d (inl e) = Digits-lem lower 0 d c (ground arith) e ∙ ap some (omega arith)
hex_digit-IsDigit c d (inr e) = Digits-lem upper 0 d c (ground arith) e ∙ ap some (omega arith)

is_gap-IsGap : (c : ℕ) → IsGap c → is_gap c ≡ true
unfolding is_gap
is_gap-IsGap c h = ground arith

hex_loop-gap :
    (gap rest : Bytes) (sh b : ℕ) → All IsGap gap → hex_loop (gap ++ rest) sh b ≡ hex_loop rest sh b
unfolding hex_loop
hex_loop-gap [] rest sh b h = refl
hex_loop-gap (c ∷ gap) rest sh b (h, hs) = rw (is_gap-IsGap c h) (hex_loop-gap gap rest sh b hs)

digit_no_gap : (c d : ℕ) → hex_digit c ≡ some d → is_gap c ≡ false
unfolding hex_digit is_gap
digit_no_gap c d h = ground arith

hex_loop-digit1 :
    (c d : ℕ) (rest : Bytes)
    → hex_digit c ≡ some d
    → hex_loop (c ∷ rest) 4 0 ≡ hex_loop rest 0 (d * 16)
unfolding hex_loop
hex_loop-digit1 c d rest h =
    let z : 0 + d * 2 ^ 4 ≡ d * 16 = omega arith in rw (digit_no_gap c d h, h, z)

hex_loop-digit2 :
    (c d b : ℕ) (rest : Bytes)
    → hex_digit c ≡ some d
    → hex_loop (c ∷ rest) 0 b ≡ before (b + d) (hex_loop rest 4 0)
unfolding hex_loop
hex_loop-digit2 c d b rest h =
    let z : b + d * 2 ^ 0 ≡ b + d = omega arith in rw (digit_no_gap c d h, h, z)

-- Bytes, each written as two of the digits 0 to 9, a to f and A to F, with spaces, tabs and newlines in
-- front of each digit: vtc_hex_to_bin gives the bytes back.
pub vtc_hex_to_bin-spelling :
    (ws : List Written) (bs : Bytes) → AllSpell ws bs → vtc_hex_to_bin (spelling ws) ≡ ret bs
unfolding vtc_hex_to_bin hex_loop
vtc_hex_to_bin-spelling [] [] h = refl
vtc_hex_to_bin-spelling [] (b ∷ bs) h = absurd h
vtc_hex_to_bin-spelling (w ∷ ws) [] h = absurd h
vtc_hex_to_bin-spelling (w ∷ ws) (b ∷ bs) ((h, l, dh, dl, is, g1, g2), hs) =
    let hi = hex_digit-IsDigit w.digit1 h dh in
    let lo = hex_digit-IsDigit w.digit2 l dl in
    hex_loop-gap w.gap1 (w.digit1 ∷ (w.gap2 ++ w.digit2 ∷ spelling ws)) 4 0 g1
    ∙ hex_loop-digit1 w.digit1 h (w.gap2 ++ w.digit2 ∷ spelling ws) hi
    ∙ hex_loop-gap w.gap2 (w.digit2 ∷ spelling ws) 0 (h * 16) g2
    ∙ hex_loop-digit2 w.digit2 l (h * 16) (spelling ws) lo
    ∙ ap (before (h * 16 + l)) (vtc_hex_to_bin-spelling ws bs hs)
    ∙ rw is
