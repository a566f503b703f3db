-- ===== src/Hpack/Str/Wire.antt =====
-- Strings without Huffman coding: what `str_encode` writes and `str_decode` reads.
use vtest.Base.{
  ℕ, zero, suc, ◌-◌, ◌%◌, ◌^◌, ◌≤◌, ◌<◌, ◌≡◌, ◌≢◌, refl, [], ◌∷◌, ◌++◌, Bytes, false, take, drop,
  some, ret, length, arith, length-take, length-drop, take-append-drop, take-append, drop-append,
  take_all, drop-drop, append_assoc, length-append,
}
use vtest.Hpack.HuffDecode.{Stbl}
use vtest.Hpack.Huffman.{huff_simulate}
use vtest.Hpack.Num.RoundTrip.{
  representation, representation-pos, representation_head, num_decode-representation,
  num_encode-representation,
}
use vtest.Hpack.Num.{num_encode}
use vtest.Hpack.Str.{str_encode, str_encode_chars, str_decode, str_decode_chars, top_bit}
use vtest.Hpack.Types.{hpk_done, hpk_err, HpkTxt, iter_done}

-- A string as RFC 7541, section 5.2, writes it without Huffman coding.
abbrev pub wire : Bytes → Bytes
wire k = representation 7 0 (length k) ++ k

-- The strings that are sent without harm: short enough for the sums of their lengths, and not of
-- length 127, the largest value of the prefix.
abbrev pub IsSendable : Bytes → Type 0
IsSendable k = (length k < 2 ^ 30) × (length k ≢ 127)

-- The same as `num_encode-representation`, in a buffer with room enough.
pub num_encode_room :
    (prefix b num : ℕ) (before tail : Bytes)
    → (0 < prefix) × (prefix ≤ 8)
    → num < 2 ^ 32
    → num ≢ 2 ^ prefix - 1
    → length (representation prefix (b - b % 2 ^ prefix) num) ≤ suc (length tail)
    → num_encode (record { before = before; after = b ∷ tail }) prefix num
      ≡ ret (record {
        result =
            iter_done (drop (length (representation prefix (b - b % 2 ^ prefix) num)) (b ∷ tail));
        at = record {
          before = before ++ representation prefix (b - b % 2 ^ prefix) num;
          after = drop (length (representation prefix (b - b % 2 ^ prefix) num)) (b ∷ tail);
        };
      })
num_encode_room prefix b num before tail p lt ne room =
    let rep = representation prefix (b - b % 2 ^ prefix) num in
    let n = length rep - 1 in
    let size : length rep ≡ suc n =
      omega (arith, representation-pos prefix (b - b % 2 ^ prefix) num) in
    let old : length (b ∷ take n tail) ≡ length rep = omega (arith, length-take n tail) in
    let written =
      num_encode-representation prefix b num before (take n tail) (drop n tail) p lt ne old in
    rw size (rw take-append-drop at written)

module _ (k : Bytes) where
  -- The characters behind the length, written and read.
  encode_plain :
      (before after : Bytes)
      → length k ≤ length after
      → str_encode_chars
          (record { text = some k; huff = false })
          (length k)
          (record { result = iter_done after; at = record { before = before; after = after } })
        ≡ ret (record {
          result = iter_done (drop (length k) after);
          at = record { before = before ++ k; after = drop (length k) after };
        })
  unfolding str_encode_chars
  encode_plain before after room = ground (arith, take_all k)

  decode_plain :
      (s : Stbl) (t : HpkTxt) (before rest : Bytes)
      → 0 < length (k ++ rest)
      → str_decode_chars s false t (record {
        result = iter_done (k ++ rest);
        num = length k;
        at = record { before = before; after = k ++ rest };
      })
        ≡ ret (record {
          result = iter_done rest;
          text = record { text = some k; huff = false };
          at = record { before = before ++ k; after = rest };
          freed = false;
        })
  unfolding str_decode_chars
  decode_plain s t before rest some_left =
      ground (arith, length-append k rest, take-append k rest, drop-append k rest)

drop_head : (n a b : ℕ) (tail : Bytes) → 0 < n → drop n (a ∷ tail) ≡ drop n (b ∷ tail)
drop_head zero a b tail h = absurd (omega arith)
drop_head (suc n) a b tail h = refl

plain_size : (k : Bytes) → huff_simulate k false ≡ length k
unfolding huff_simulate
plain_size k = refl

no_top_bit : (n : ℕ) (rest : Bytes) → top_bit (representation 7 0 n ++ rest) ≡ false
no_top_bit n rest = let (b, bs, e, low, high) = representation_head 7 0 n in rw e (ground arith)

module _ (k : Bytes) (sendable : IsSendable k) where
  -- With room for it, `str_encode` writes the wire form of a string.
  pub str_encode-wire :
      (before after : Bytes)
      → length (wire k) ≤ length after
      → str_encode
          (record { before = before; after = after })
          (record { text = some k; huff = false })
        ≡ ret (record {
          result = iter_done (drop (length (wire k)) after);
          at = record { before = before ++ wire k; after = drop (length (wire k)) after };
        })
  unfolding str_encode
  str_encode-wire before [] room = absurd (
      omega
        (arith, representation-pos 7 0 (length k), length-append (representation 7 0 (length k)) k))
  str_encode-wire before (b ∷ tail) room =
      let rep = representation 7 0 (length k) in
      let sizes = length-append rep k in
      let number =
        num_encode_room 7 0 (length k) before tail (omega arith) (omega arith)
          (omega (arith, sendable.1)) (omega (arith, sizes)) in
      let after = drop (length rep) (0 ∷ tail) in
      let left = length-drop (length rep) (0 ∷ tail) in
      let chars = encode_plain k (before ++ rep) after (omega (arith, left, sizes)) in
      ground (
        arith,
        plain_size k,
        number,
        chars,
        sizes,
        drop_head (length (wire k)) 0 b tail,
        representation-pos 7 0 (length k),
        append_assoc before rep k,
        drop-drop (length rep) (length k) (0 ∷ tail),
      )

  -- `str_decode` reads the wire form of a string back, unless it is empty and nothing follows it.
  pub str_decode-wire :
      (s : Stbl) (t : HpkTxt) (before rest : Bytes)
      → 0 < length (k ++ rest)
      → str_decode s (record { before = before; after = wire k ++ rest }) t
        ≡ ret (record {
          result = iter_done rest;
          text = record { text = some k; huff = false };
          at = record { before = before ++ wire k; after = rest };
          freed = false;
        })
  unfolding str_decode
  str_decode-wire s t before rest some_left =
      let rep = representation 7 0 (length k) in
      let number =
        num_decode-representation 7 0 (length k) before (k ++ rest) (omega arith) (omega arith) in
      rw (append_assoc rep k rest, number, no_top_bit (length k) (k ++ rest))
        (rw (decode_plain k s t (before ++ rep) rest some_left, append_assoc before rep k))

-- An empty string at the end of the buffer is written, and refused when it is read.
pub str_decode_empty_last :
    (s : Stbl) (t : HpkTxt) (before : Bytes)
    → (str_encode
          (record { before = before; after = 0 ∷ [] })
          (record { text = some []; huff = false })
        ≡ ret (record { result = hpk_done; at = record { before = before ++ 0 ∷ []; after = [] } }))
      × (str_decode s (record { before = before; after = 0 ∷ [] }) t
          ≡ ret (record {
            result = hpk_err;
            text = t;
            at = record { before = before ++ 0 ∷ []; after = [] };
            freed = false;
          }))
unfolding str_decode str_decode_chars representation
str_decode_empty_last s t before =
    let written = str_encode-wire [] (omega arith) before (0 ∷ []) (omega arith) in
    let number = num_decode-representation 7 0 0 before [] (omega arith) (omega arith) in
    (written, rw number)
