-- ===== src/Hpack/Num/RoundTrip.antt =====
-- What `num_encode` writes, `num_decode` reads back; and where it does not.
use vtest.Base.{
  ℕ, zero, suc, ◌+◌, ◌-◌, ◌*◌, ◌/◌, ◌%◌, ◌^◌, ◌≤◌, ◌<◌, ◌≡◌, ◌≢◌, [], ◌∷◌, ◌++◌, Bytes, ret, arith,
  append_assoc, length, pow-pos, ap, Bool-cases, ltb→lt, inl, inr, lt_of_pow-lt, pow_seven,
  le_div_of_mul-le, ltb, true, false, high_bits-mod, pow-le_byte, if◌then◌else◌, undefined,
}
use native.Mathlib.Nat.{div-add-mod, mul-le-mul_right}
use vtest.Hpack.Num.{num_decode_loop, num_decode, num_encode, num_encode_loop}
use vtest.Hpack.Types.{hpk_done, hpk_err, iter_done}

-- The bytes of the number behind the prefix, as RFC 7541, section 5.1, has them.
unfoldable pub groups : ℕ → ℕ → Bytes
groups zero num = num % 128 ∷ []
groups (suc k) num =
    let rest = groups k (num / 128) in
    elim (ltb num 128) [ true ↦ num ∷ [] | false ↦ (num % 128 + 128) ∷ rest ]

pub length-groups : (k num : ℕ) → 0 < length (groups k num)
unfolding groups
length-groups zero num = omega arith
length-groups (suc k) num = ground arith

num_encode_loop-groups :
    (k num : ℕ) (old rest before : Bytes)
    → num < 128 ^ suc k
    → length old ≡ length (groups k num)
    → num_encode_loop before (old ++ rest) num
      ≡ ret (record {
        result = iter_done rest;
        at = record { before = before ++ groups k num; after = rest };
      })
unfolding num_encode_loop groups
num_encode_loop-groups zero num [] rest before h e = absurd (omega arith)
num_encode_loop-groups zero num (b ∷ []) rest before h e = ground arith
num_encode_loop-groups zero num (b ∷ c ∷ old) rest before h e = absurd (omega arith)
num_encode_loop-groups (suc k) num [] rest before h e = ground arith
num_encode_loop-groups (suc k) num (b ∷ []) rest before h e =
    let written = num % 128 + 128 in
    ground (
      arith,
      num_encode_loop-groups k (num / 128) [] rest (before ++ written ∷ []) (omega arith),
      append_assoc before (written ∷ []) (groups k (num / 128)),
    )
num_encode_loop-groups (suc k) num (b ∷ c ∷ old) rest before h e =
    let written = num % 128 + 128 in
    ground (
      arith,
      num_encode_loop-groups k (num / 128) (c ∷ old) rest (before ++ written ∷ []) (omega arith),
      append_assoc before (written ∷ []) (groups k (num / 128)),
    )

-- One byte of the number, shifted into its place, and what is left to be read above it.
split_group :
    (num shift : ℕ) → num * 2 ^ shift ≡ num % 128 * 2 ^ shift + num / 128 * 2 ^ (shift + 7)
split_group num shift = omega (
  arith,
  ap (λ (t : ℕ). t * 2 ^ shift) (div-add-mod num 128),
  ap (λ (t : ℕ). num / 128 * t) (pow_seven shift),
)

fits_group : (g num shift : ℕ) → num + g * 2 ^ shift < 2 ^ 32 → g ≤ (2 ^ 32 - 1 - num) / 2 ^ shift
fits_group g num shift h = le_div_of_mul-le g _ (2 ^ shift) (pow-pos shift) (omega arith)

-- A number that needs one more group still shifts by less than the width.
more_shift : (num acc shift : ℕ) → 128 ≤ num → acc + num * 2 ^ shift < 2 ^ 32 → shift + 7 < 32
more_shift num acc shift h k = lt_of_pow-lt (shift + 7) 32 (
    let grown : 128 * 2 ^ shift ≤ num * 2 ^ shift = mul-le-mul_right (2 ^ shift) h in
    omega (arith, pow_seven shift))

num_decode_loop-groups :
    (k num acc shift : ℕ) (rest before : Bytes)
    → num < 128 ^ suc k
    → shift < 32
    → acc + num * 2 ^ shift < 2 ^ 32
    → num_decode_loop before (groups k num ++ rest) acc shift
      ≡ ret (record {
        result = iter_done rest;
        num = acc + num * 2 ^ shift;
        at = record { before = before ++ groups k num; after = rest };
      })
unfolding num_decode_loop groups
num_decode_loop-groups zero num acc shift rest before h s f =
    ground (arith, fits_group num acc shift)
num_decode_loop-groups (suc k) num acc shift rest before h s f = ground (
  arith,
  fits_group num acc shift,
  fits_group (num % 128) acc shift,
  split_group num shift,
  more_shift num acc shift,
  append_assoc before ((num % 128 + 128) ∷ []) (groups k (num / 128)),
  num_decode_loop-groups k (num / 128) (acc + num % 128 * 2 ^ shift) (shift + 7) rest
      (before ++ (num % 128 + 128) ∷ []) (omega arith),
)

-- A number with a prefix, as RFC 7541, section 5.1, writes it; `high` holds the bits above the
-- prefix. The largest value of the prefix announces that groups follow.
unfoldable pub representation : (prefix high num : ℕ) → Bytes
representation prefix high num =
    if ltb num (2 ^ prefix - 1)
    then (high + num) ∷ []
    else (high + (2 ^ prefix - 1)) ∷ groups 4 (num - (2 ^ prefix - 1))

pub representation-pos : (prefix high num : ℕ) → 0 < length (representation prefix high num)
unfolding representation
representation-pos prefix high num = ground arith

-- The bits above the prefix show in the first byte.
pub representation_head :
    (prefix high num : ℕ)
    → (b : ℕ) × (bs : Bytes) × (representation prefix high num ≡ b ∷ bs)
      × (high ≤ b)
      × (b < high + 2 ^ prefix)
unfolding representation
representation_head prefix high num = elim (Bool-cases (ltb num (2 ^ prefix - 1))) [
  | inl small ↦
      (high + num, [], rw small, omega arith, omega (arith, ltb→lt num (2 ^ prefix - 1) small))
  | inr large ↦ (
    high + (2 ^ prefix - 1),
    groups 4 (num - (2 ^ prefix - 1)),
    rw large,
    omega arith,
    omega (arith, pow-pos prefix),
  )
]

abbrev pub IsPrefix : ℕ → Type 0
IsPrefix prefix = (0 < prefix) × (prefix ≤ 8)

-- `num_decode` reads back every number below 2 ^ 32 from its representation in the RFC, whatever
-- bits stand above the prefix and whatever bytes follow.
pub num_decode-representation :
    (prefix b num : ℕ) (before rest : Bytes)
    → IsPrefix prefix
    → num < 2 ^ 32
    → num_decode
        (record { before = before; after = representation prefix (b - b % 2 ^ prefix) num ++ rest })
        prefix
      ≡ ret (record {
        result = iter_done rest;
        num = num;
        at = record {
          before = before ++ representation prefix (b - b % 2 ^ prefix) num;
          after = rest;
        };
      })
unfolding num_decode representation
num_decode-representation prefix b num before rest p h =
    let pmax = 2 ^ prefix - 1 in
    let high = b - b % 2 ^ prefix in
    ground (
      arith,
      high_bits-mod b prefix num,
      high_bits-mod b prefix pmax,
      pow-pos prefix,
      pow-le_byte prefix,
      append_assoc before ((high + pmax) ∷ []) (groups 4 (num - pmax)),
      num_decode_loop-groups 4 (num - pmax) pmax 0 rest (before ++ (high + pmax) ∷ []),
    )

-- With room for it, `num_encode` writes the representation of the RFC, keeping the bits above the
-- prefix, of every number but the largest value of the prefix.
pub num_encode-representation :
    (prefix b num : ℕ) (before old rest : Bytes)
    → IsPrefix prefix
    → num < 2 ^ 32
    → num ≢ 2 ^ prefix - 1
    → length (b ∷ old) ≡ length (representation prefix (b - b % 2 ^ prefix) num)
    → num_encode (record { before = before; after = b ∷ (old ++ rest) }) prefix num
      ≡ ret (record {
        result = iter_done rest;
        at = record {
          before = before ++ representation prefix (b - b % 2 ^ prefix) num;
          after = rest;
        };
      })
unfolding num_encode representation
num_encode-representation prefix b num before [] rest p h ne room =
    ground (arith, length-groups 4 (num - (2 ^ prefix - 1)), pow-pos prefix)
num_encode-representation prefix b num before (c ∷ old) rest p h ne room =
    let pmax = 2 ^ prefix - 1 in
    let high = b - b % 2 ^ prefix in
    ground (
      arith,
      pow-pos prefix,
      append_assoc before ((high + pmax) ∷ []) (groups 4 (num - pmax)),
      num_encode_loop-groups 4 (num - pmax) (c ∷ old) rest (before ++ (high + pmax) ∷ []),
    )

-- For each prefix, `num_encode` writes its largest value as one byte, in the last byte of a buffer
-- too, and `num_decode` refuses what was written: that byte announces groups to it.
pub num_encode_pmax :
    (prefix b : ℕ) (before : Bytes)
    → IsPrefix prefix
    → (num_encode (record { before = before; after = b ∷ [] }) prefix (2 ^ prefix - 1)
        ≡ ret (record {
          result = hpk_done;
          at = record {
            before = before ++ (b - b % 2 ^ prefix + (2 ^ prefix - 1)) ∷ [];
            after = [];
          };
        }))
      × (num_decode
            (record { before = before; after = (b - b % 2 ^ prefix + (2 ^ prefix - 1)) ∷ [] })
            prefix
          ≡ ret (record {
            result = hpk_err;
            num = 2 ^ prefix - 1;
            at = record {
              before = before ++ (b - b % 2 ^ prefix + (2 ^ prefix - 1)) ∷ [];
              after = [];
            };
          }))
unfolding num_encode num_decode
num_encode_pmax prefix b before p =
    ground (arith, high_bits-mod b prefix (2 ^ prefix - 1), pow-pos prefix)

-- After the largest value of the prefix and five bytes 0x80, one more byte makes `num_decode` shift
-- a uint32_t by 35, whatever the byte and the prefix are.
pub num_decode_overlong :
    (prefix b c : ℕ) (before rest : Bytes)
    → IsPrefix prefix
    → b % 2 ^ prefix ≡ 2 ^ prefix - 1
    → num_decode
        (record { before = before; after = b ∷ 0x80 ∷ 0x80 ∷ 0x80 ∷ 0x80 ∷ 0x80 ∷ c ∷ rest })
        prefix
      ≡ undefined
unfolding num_decode
num_decode_overlong prefix b c before rest p h = ground (arith, pow-le_byte prefix, pow-pos prefix)
