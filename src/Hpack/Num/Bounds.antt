-- ===== src/Hpack/Num/Bounds.antt =====
-- `num_decode` on any bytes: the number that it reads, and where it refuses or has no meaning.
use native.Mathlib.Nat.{le-div_iff_mul-le, mod-lt}
use vtest.Base.{
  ℕ, ◌+◌, ◌-◌, ◌*◌, ◌/◌, ◌%◌, ◌^◌, ◌≤◌, ◌<◌, ◌≡◌, refl, sym, ap, ◌∙◌, ◌⊎◌, inl, inr, [], ◌∷◌, ◌++◌,
  Bytes, All, arith, append_assoc, append-nil, length, pow-pos, pow-le_byte, false, ltb, leb,
  leb→le, ltb→lt, Bool-cases, Outcome, ret, aborted, undefined, ◌==◌, ◌||◌,
}
use vtest.Hpack.Num.{Decoded, num_decode_loop, num_decode_at, num_decode, uint32_max}
use vtest.Hpack.Types.{HpkResult, hpk_more, hpk_done, hpk_err, iter_done}

-- The sum of groups of seven bits from a shift on, as RFC 7541, section 5.1, has it, with no bound
abbrev pub sum_of : ℕ → Bytes → ℕ
sum_of shift [] = 0
sum_of shift (g ∷ gs) = g % 128 * 2 ^ shift + sum_of (shift + 7) gs

-- The last byte ends the number, and the others go on.
abbrev pub Ended : Bytes → Type 0
Ended [] = ⊥
Ended (g ∷ []) = g < 128
Ended (g ∷ h ∷ gs) = (128 ≤ g) × Ended (h ∷ gs)

abbrev pub GoesOn : Bytes → Type 0
GoesOn gs = All (λ g. 128 ≤ g) gs

-- Whether bytes are left
abbrev pub left_of : Bytes → HpkResult
left_of [] = hpk_done
left_of (b ∷ bs) = hpk_more

-- The bytes end, or the next group makes the number too large.
abbrev pub Stuck : ℕ → ℕ → Bytes → Bytes → Type 0
Stuck num shift gs after =
    (after ≡ [])
    ⊎ ((g : ℕ) × (rest : Bytes) × (after ≡ g ∷ rest)
        × (2 ^ 32 ≤ num + sum_of shift gs + g % 128 * 2 ^ (shift + 7 * length gs)))

-- What the loop answers behind a number and with a shift
abbrev Loops : Bytes → Bytes → ℕ → ℕ → Outcome Decoded → Type 0
Loops before after num shift (ret d) =
    (gs : Bytes) × (d.at.before ≡ before ++ gs)
    × (after ≡ gs ++ d.at.after)
    × ((Ended gs
          × (d.num ≡ num + sum_of shift gs)
          × (d.num < 2 ^ 32)
          × (d.result ≡ left_of d.at.after))
        ⊎ (GoesOn gs × (d.result ≡ hpk_err) × Stuck num shift gs d.at.after))
Loops before after num shift undefined =
    (gs : Bytes) × (g : ℕ) × (rest : Bytes) × (after ≡ gs ++ g ∷ rest)
    × GoesOn gs
    × (32 ≤ shift + 7 * length gs)
    × (num + sum_of shift gs < 2 ^ 32)
Loops before after num shift aborted = ⊥

iter_done-left : (after : Bytes) → iter_done after ≡ left_of after
iter_done-left [] = refl
iter_done-left (b ∷ bs) = refl

-- What the overflow test decides
too_large :
    (num g shift : ℕ)
    → num < 2 ^ 32
    → (uint32_max - num) / 2 ^ shift < g
    → 2 ^ 32 ≤ num + g * 2 ^ shift
too_large num g shift small h = elim (Bool-cases (leb (g * 2 ^ shift) (uint32_max - num))) [
  | inl le ↦
      let within =
        (le-div_iff_mul-le (pow-pos shift)).1 (leb→le (g * 2 ^ shift) (uint32_max - num) le) in
      absurd (omega (arith, within))
  | inr gt ↦ ground arith
]

small_enough :
    (num g shift : ℕ)
    → num < 2 ^ 32
    → g ≤ (uint32_max - num) / 2 ^ shift
    → num + g * 2 ^ shift < 2 ^ 32
small_enough num g shift small h = omega (arith, (le-div_iff_mul-le (pow-pos shift)).0 h)

Ended-cons : (b : ℕ) (gs : Bytes) → 128 ≤ b → Ended gs → Ended (b ∷ gs)
Ended-cons b [] h k = absurd k
Ended-cons b (g ∷ gs) h k = (h, k)

-- One group in front
Loops-cons :
    (before after : Bytes) (num shift b : ℕ) (m : Outcome Decoded)
    → 128 ≤ b
    → Loops (before ++ b ∷ []) after (num + b % 128 * 2 ^ shift) (shift + 7) m
    → Loops before (b ∷ after) num shift m
Loops-cons before after num shift b aborted h k = k
Loops-cons before after num shift b undefined h (gs, g, rest, e, on, far, fits) =
    (b ∷ gs, g, rest, ap (◌∷◌ b) e, (h, on), omega (arith, far), omega (arith, fits))
Loops-cons before after num shift b (ret d) h (gs, at, e, inl (done, is, small, told)) = (
  b ∷ gs,
  at ∙ append_assoc before (b ∷ []) gs,
  ap (◌∷◌ b) e,
  inl (Ended-cons b gs h done, omega (arith, is), small, told),
)
Loops-cons before after num shift b (ret d) h (gs, at, e, inr (on, told, inl none_left)) =
    (b ∷ gs, at ∙ append_assoc before (b ∷ []) gs, ap (◌∷◌ b) e, inr ((h, on), told, inl none_left))
Loops-cons before after num shift b (ret d) h
      (gs, at, e, inr (on, told, inr (g, rest, next, large))) =
    let place : shift + 7 * length (b ∷ gs) ≡ shift + 7 + 7 * length gs = omega arith in
    (
      b ∷ gs,
      at ∙ append_assoc before (b ∷ []) gs,
      ap (◌∷◌ b) e,
      inr ((h, on), told, inr (g, rest, next, rw place (omega (arith, large)))),
    )

num_decode_loop-Loops :
    (after before : Bytes) (num shift : ℕ)
    → num < 2 ^ 32
    → Loops before after num shift (num_decode_loop before after num shift)
unfolding num_decode_loop
num_decode_loop-Loops [] before num shift small =
    ([], sym (append-nil before), refl, inr (tt, refl, inl refl))
num_decode_loop-Loops (b ∷ after) before num shift small = elim (Bool-cases (leb 32 shift)) [
  | inl far ↦ rw far ([], b, after, refl, tt, ground arith, omega arith)
  | inr near ↦ elim (Bool-cases (ltb ((uint32_max - num) / 2 ^ shift) (b % 128))) [
    | inl over ↦
        let place : shift + 0 ≡ shift = omega arith in
        let large = too_large num (b % 128) shift small (ground arith) in
        rw (near, over)
          (
            [],
            sym (append-nil before),
            refl,
            inr (tt, refl, inr (b, after, refl, rw place (omega (arith, large)))),
          )
    | inr under ↦
        let fits = small_enough num (b % 128) shift small (ground arith) in
        let sum : (num + b % 128 * 2 ^ shift % 2 ^ 32) % 2 ^ 32 ≡ num + b % 128 * 2 ^ shift =
          omega (arith, fits) in
        elim (Bool-cases (leb 128 b)) [
          | inl on ↦
              rw (near, under, on, sum)
                (Loops-cons before after num shift b _ (leb→le 128 b on) (
                  num_decode_loop-Loops after (before ++ b ∷ []) (num + b % 128 * 2 ^ shift)
                    (shift + 7) fits))
          | inr off ↦
              rw (near, under, off, sum)
                (b ∷ [], refl, refl, inl (ground arith, omega arith, fits, iter_done-left after))
        ]
  ]
]

-- The number in the first byte, and whether groups follow it: they do where the prefix is full.
abbrev pub Groups : ℕ → ℕ → Bytes → Type 0
Groups prefix first gs =
    ((first % 2 ^ prefix < 2 ^ prefix - 1) × (gs ≡ []))
    ⊎ ((first % 2 ^ prefix ≡ 2 ^ prefix - 1) × Ended gs)

-- What num_decode answers for a first byte and those behind it
abbrev pub Answers : ℕ → ℕ → Bytes → Bytes → Outcome Decoded → Type 0
Answers prefix first before after (ret d) =
    (gs : Bytes) × (d.at.before ≡ before ++ first ∷ gs)
    × (after ≡ gs ++ d.at.after)
    × ((Groups prefix first gs
          × (d.num ≡ first % 2 ^ prefix + sum_of 0 gs)
          × (d.num < 2 ^ 32)
          × (d.result ≡ left_of d.at.after))
        ⊎ ((first % 2 ^ prefix ≡ 2 ^ prefix - 1)
            × GoesOn gs
            × (d.result ≡ hpk_err)
            × Stuck (first % 2 ^ prefix) 0 gs d.at.after))
Answers prefix first before after undefined =
    (gs : Bytes) × (g : ℕ) × (rest : Bytes) × (after ≡ gs ++ g ∷ rest)
    × GoesOn gs
    × (5 ≤ length gs)
    × (first % 2 ^ prefix + sum_of 0 gs < 2 ^ 32)
Answers prefix first before after aborted = ⊥

Loops-Answers :
    (prefix first : ℕ) (before after : Bytes) (m : Outcome Decoded)
    → first % 2 ^ prefix ≡ 2 ^ prefix - 1
    → Loops (before ++ first ∷ []) after (first % 2 ^ prefix) 0 m
    → Answers prefix first before after m
Loops-Answers prefix first before after aborted full k = k
Loops-Answers prefix first before after undefined full (gs, g, rest, e, on, far, fits) =
    (gs, g, rest, e, on, omega (arith, far), fits)
Loops-Answers prefix first before after (ret d) full (gs, at, e, inl (done, is, small, told)) =
    (gs, at ∙ append_assoc before (first ∷ []) gs, e, inl (inr (full, done), is, small, told))
Loops-Answers prefix first before after (ret d) full (gs, at, e, inr (on, told, stuck)) =
    (gs, at ∙ append_assoc before (first ∷ []) gs, e, inr (full, on, told, stuck))

-- num_decode of any bytes, one at least, with a prefix of one to eight bits. Where it answers hpk_more or
-- hpk_done, as bytes are left or not, the bytes that it has taken are a whole representation of RFC 7541,
-- section 5.1, and its number is what they stand for, without wrapping around, below 2 ^ 32. Where it
-- answers hpk_err, all groups that it has taken go on, and either the bytes end there or the number with the
-- next group is 2 ^ 32 or more. It has no meaning only behind five groups or more that go on and do not
-- make the number too large; it aborts never.
pub num_decode-Answers :
    (prefix first : ℕ) (before after : Bytes)
    → 0 < prefix
    → prefix ≤ 8
    → Answers prefix first before after
        (num_decode (record { before = before; after = first ∷ after }) prefix)
unfolding num_decode num_decode_at
num_decode-Answers prefix first before after h k =
    let some_bits : (prefix == 0 || ltb 8 prefix) ≡ false = ground arith in
    let byte = pow-le_byte prefix k in
    let pos = pow-pos prefix in
    let masked : first % 2 ^ prefix < 2 ^ prefix = mod-lt first pos in
    elim (Bool-cases (ltb (first % 2 ^ prefix) (2 ^ prefix - 1))) [
      | inl low ↦
          let under = ltb→lt (first % 2 ^ prefix) (2 ^ prefix - 1) low in
          rw (some_bits, low)
            (
              [],
              refl,
              refl,
              inl (
                inl (under, refl),
                omega arith,
                omega (arith, masked, byte),
                iter_done-left after,
              ),
            )
      | inr high ↦
          let full : first % 2 ^ prefix ≡ 2 ^ prefix - 1 = ground (arith, masked) in
          rw (some_bits, high)
            (Loops-Answers prefix first before after _ full (
              num_decode_loop-Loops after (before ++ first ∷ []) (first % 2 ^ prefix) 0
                (omega (arith, masked, byte))))
    ]
