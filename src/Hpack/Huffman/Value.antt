-- ===== src/Hpack/Huffman/Value.antt =====
-- The number that bytes and waiting bits stand for, and what one symbol of the Huffman code adds to it:
-- `add_symbol` and `flush` of Hpack/Huffman.
use vtest.Base.{
  ℕ, zero, suc, ◌+◌, ◌-◌, ◌*◌, ◌/◌, ◌%◌, ◌^◌, ◌≤◌, ◌<◌, ◌≡◌, refl, sym, ap, ◌∙◌, List, [], ◌∷◌,
  ◌++◌, Bytes, true, false, leb, length, drop, append_assoc, append-nil, arith, pow_eight, Bool,
  pow-pos, ltb, ◌&&◌, get_or, pow_split, low_bits_clear, if_branches, leb→le, lt→ltb,
}
use native.Mathlib.Nat.{mul-le-mul_right, mul_assoc, add-mul}
use vtest.Hpack.CodingTable.{Symbol, hpack, coding_table}
use vtest.Hpack.Huffman.{Packer, symbol_of, flush, add_symbol}

-- The number that a row of bytes is, in front of which stands `n`.
abbrev pub value_from : ℕ → Bytes → ℕ
value_from n [] = n
value_from n (b ∷ bs) = value_from (n * 256 + b) bs

abbrev pub value : Bytes → ℕ
value bs = value_from 0 bs

pub value-concat :
    (n : ℕ) (bs : Bytes) (b : ℕ) → value_from n (bs ++ b ∷ []) ≡ value_from n bs * 256 + b
value-concat n [] b = refl
value-concat n (c ∷ bs) b = value-concat (n * 256 + c) bs b

-- The codes of a text one after the other, behind the bits of `n`.
unfoldable pub code_from : ℕ → Bytes → ℕ
code_from n [] = n
code_from n (c ∷ cs) = code_from (n * 2 ^ (symbol_of c).size + (symbol_of c).val) cs

-- The bytes written and the bits that wait make up the bits of `n`.
pub record Holds (n : ℕ) (p : Packer) : Type 0 where
  pub fits : p.pl ≤ 64
  pub is_uint64 : p.pack < 2 ^ 64
  pub bits : value p.before * 2 ^ 64 + p.pack ≡ n * 2 ^ (64 - p.pl)

-- The buffer of `q` is that of `p` with `k` bytes written.
pub record Wrote (before after : Bytes) (k : ℕ) (q : Packer) : Type 0 where
  pub written : Bytes
  pub counted : length written ≡ k
  pub behind : q.before ≡ before ++ written
  pub left : q.after ≡ drop k after

abbrev packer : ℕ → ℕ → Bytes → Bytes → Packer
packer pack pl before after = record { pack = pack; pl = pl; before = before; after = after }

one_byte :
    (n pack pl : ℕ) (before after : Bytes) (b : ℕ)
    → 8 ≤ pl
    → Holds n (packer pack pl before (b ∷ after))
    → Holds n (packer (pack * 2 ^ 8 % 2 ^ 64) (pl - 8) (before ++ (pack / 2 ^ 56) ∷ []) after)
one_byte n pack pl before after b le h =
    let shifted : 64 - (pl - 8) ≡ 64 - pl + 8 = omega (arith, h.fits) in
    record {
      fits = omega (arith, h.fits);
      is_uint64 = omega arith;
      bits =
          rw (value-concat 0 before (pack / 2 ^ 56), shifted)
            (omega (arith, h.bits, h.is_uint64, ap (λ (t : ℕ). n * t) (pow_eight (64 - pl))));
    }

abbrev pub Flushed : ℕ → ℕ → Bytes → Bytes → Bool × Packer → Type 0
Flushed n pl before after (room, q) =
    (room ≡ true) × Holds n q × (q.pl ≡ pl % 8) × Wrote before after (pl / 8) q

pub stays :
    (n pack pl : ℕ) (before after : Bytes)
    → Holds n (packer pack pl before after)
    → pl < 8
    → Flushed n pl before after (true, packer pack pl before after)
stays n pack pl before after h lt =
    let none : pl / 8 ≡ 0 = omega arith in
    (
      refl,
      h,
      omega arith,
      record {
        written = [];
        counted = omega arith;
        behind = sym (append-nil before);
        left = rw none;
      },
    )

-- One byte, and then the others.
steps :
    (n pl x b : ℕ) (before after : Bytes) (r : Bool × Packer)
    → 8 ≤ pl
    → Flushed n (pl - 8) (before ++ x ∷ []) after r
    → Flushed n pl before (b ∷ after) r
steps n pl x b before after r le (room, h, rest, w) =
    let one_more : pl / 8 ≡ suc ((pl - 8) / 8) = omega arith in
    (
      room,
      h,
      omega arith,
      record {
        written = x ∷ w.written;
        counted = omega (arith, w.counted);
        behind = w.behind ∙ append_assoc before (x ∷ []) w.written;
        left = rw (one_more, w.left);
      },
    )

pub flush-Flushed :
    (rounds n pack pl : ℕ) (before after : Bytes)
    → Holds n (packer pack pl before after)
    → pl ≤ rounds
    → pl / 8 ≤ length after
    → Flushed n pl before after (flush rounds pack pl before after)
unfolding flush
flush-Flushed zero n pack pl before after h le room = stays n pack pl before after h (omega arith)
flush-Flushed (suc rounds) n pack pl before [] h le room =
    let few : pl < 8 = omega arith in rw (lt→ltb pl 8 few) (stays n pack pl before [] h few)
flush-Flushed (suc rounds) n pack pl before (b ∷ after) h le room =
    if_branches (Flushed n pl before (b ∷ after)) (leb 8 pl)
      (λ more.
        let enough = leb→le 8 pl more in
        steps n pl (pack / 2 ^ 56) b before after _ enough (
          flush-Flushed rounds n (pack * 2 ^ 8 % 2 ^ 64) (pl - 8) (before ++ (pack / 2 ^ 56) ∷ [])
            after (one_byte n pack pl before after b enough h) (omega arith) (omega arith)))
      (λ few. stays n pack pl before (b ∷ after) h (ground arith))

-- A symbol of the table: at most 30 bits, and its code has no more bits than it says.
abbrev IsCode : Symbol → Type 0
IsCode s = (0 < s.size) × (s.size ≤ 30) × (s.val < 2 ^ s.size)

is_code : Symbol → Bool
is_code s = ltb 0 s.size && leb s.size 30 && ltb s.val (2 ^ s.size)

are_codes : ℕ → List Symbol → Bool
are_codes zero l = true
are_codes (suc n) [] = false
are_codes (suc n) (s ∷ l) = is_code s && are_codes n l

are_codes-IsCode :
    (n i : ℕ) (l : List Symbol) (d : Symbol) → are_codes n l ≡ true → i < n → IsCode (get_or l i d)
unfolding are_codes is_code
are_codes-IsCode zero i l d h lt = absurd (omega arith)
are_codes-IsCode (suc n) i [] d h lt = cc
are_codes-IsCode (suc n) zero (s ∷ l) d h lt = ground arith
are_codes-IsCode (suc n) (suc i) (s ∷ l) d h lt =
    are_codes-IsCode n i l d (ground arith) (omega arith)

table-IsCode : are_codes 256 coding_table ≡ true
unfolding are_codes is_code coding_table
table-IsCode = refl

pub symbol_of-IsCode : (c : ℕ) → IsCode (symbol_of c)
unfolding symbol_of
symbol_of-IsCode c =
    are_codes-IsCode 256 (c % 256) coding_table (hpack 0 0) table-IsCode (omega arith)

pub add_symbol-Holds :
    (n : ℕ) (p : Packer) (s : Symbol)
    → p.pl < 8
    → IsCode s
    → Holds n p
    → Holds (n * 2 ^ s.size + s.val) (add_symbol p s)
unfolding add_symbol
add_symbol-Holds n p s lt code h =
    let rest = 64 - p.pl in
    let low = 2 ^ (64 - (p.pl + s.size)) in
    let same : rest - s.size ≡ 64 - (p.pl + s.size) = omega arith in
    let split : 2 ^ rest ≡ 2 ^ s.size * low = rw same at (pow_split rest s.size (omega arith)) in
    let inside : (1 + s.val) * low ≤ 2 ^ s.size * low =
      mul-le-mul_right low (omega (arith, code.2)) in
    let whole : 2 ^ 64 ≡ 2 ^ p.pl * 2 ^ rest = pow_split 64 p.pl (omega arith) in
    let clear : p.pack + 2 ^ rest ≤ 2 ^ p.pl * 2 ^ rest =
      low_bits_clear (value p.before) n p.pack (2 ^ p.pl) (2 ^ rest) (rw (← whole) h.bits)
        (rw (← whole) h.is_uint64) in
    record {
      fits = omega arith;
      is_uint64 =
          omega (
            arith,
            whole,
            split,
            inside,
            clear,
            add-mul 1 s.val low,
            pow-pos (64 - (p.pl + s.size)),
          );
      bits = omega (
        arith,
        h.bits,
        ap (λ (t : ℕ). n * t) split,
        mul_assoc n (2 ^ s.size) low,
        add-mul (n * 2 ^ s.size) s.val low,
      );
    }
