-- ===== src/Hpack/Huffman/Encode.antt =====
-- The whole of `huff_encode`, with its padding.
use vtest.Base.{
  ℕ, zero, suc, ◌+◌, ◌-◌, ◌*◌, ◌/◌, ◌^◌, ◌≤◌, ◌<◌, ◌≡◌, refl, sym, ap, ◌∙◌, [], ◌∷◌, ◌++◌, Bytes,
  true, false, length, drop, arith, append_assoc, Returns, length-drop, drop-drop, length-append,
}
use native.Mathlib.Decide.{dec_lt}
use vtest.Hpack.Huffman.Chars.{Encodes, encode_chars-Encodes}
use vtest.Hpack.Huffman.Value.{value, value-concat, code_from, Holds}
use vtest.Hpack.Huffman.{Packer, is_end, encode_chars, pad_last, huff_encode, bit_length}
use vtest.Hpack.Num.{Encoded}
use vtest.Hpack.Types.{hpk_more, Cursor}

-- The last byte, for the seven numbers of bits that may wait.
last_byte :
    (pl v pack n : ℕ)
    → 0 < pl
    → pl < 8
    → pack < 2 ^ 64
    → v * 2 ^ 64 + pack ≡ n * 2 ^ (64 - pl)
    → v * 256 + (pack + 0xff * 2 ^ (64 - (pl + 8))) / 2 ^ 56 + 1 ≡ (n + 1) * 2 ^ (8 - pl)
last_byte zero v pack n pos lt fits e = absurd (omega arith)
last_byte (suc zero) v pack n pos lt fits e = omega arith
last_byte (suc (suc zero)) v pack n pos lt fits e = omega arith
last_byte (suc (suc (suc zero))) v pack n pos lt fits e = omega arith
last_byte (suc (suc (suc (suc zero)))) v pack n pos lt fits e = omega arith
last_byte (suc (suc (suc (suc (suc zero))))) v pack n pos lt fits e = omega arith
last_byte (suc (suc (suc (suc (suc (suc zero)))))) v pack n pos lt fits e = omega arith
last_byte (suc (suc (suc (suc (suc (suc (suc zero))))))) v pack n pos lt fits e = omega arith
last_byte (suc (suc (suc (suc (suc (suc (suc (suc pl)))))))) v pack n pos lt fits e =
    absurd (omega arith)

-- What `huff_encode` leaves: `hpk_more`; the bytes are those of the codes behind what stood before,
-- filled up with ones to `bytes` bytes; and the rest of the buffer.
pub record Written (it : Cursor) (str : Bytes) (e : Encoded) : Type 0 where
  pub goes_on : e.result ≡ hpk_more
  pub written : Bytes
  pub counted : length written ≡ (bit_length 0 str + 7) / 8
  pub behind : e.at.before ≡ it.before ++ written
  pub left : e.at.after ≡ drop ((bit_length 0 str + 7) / 8) it.after
  pub bits :
      value e.at.before + 1
      ≡ (code_from (value it.before) str + 1)
        * 2 ^ ((bit_length 0 str + 7) / 8 * 8 - bit_length 0 str)

is_end-false : (after : Bytes) → 0 < length after → is_end after ≡ false
is_end-false [] h = absurd (omega arith)
is_end-false (b ∷ bs) h = refl

module _ (it : Cursor) (str : Bytes) where
  abbrev olen : ℕ
  olen = bit_length 0 str

  no_padding :
      (q : Packer)
      → q.pl ≡ 0
      → Encodes (value it.before) 0 it.before it.after str (true, q)
      → Returns (Written it str) (pad_last q.pack q.pl q.before q.after)
  unfolding pad_last
  no_padding q none (_, h, left, w) =
      let whole : (olen + 7) / 8 ≡ olen / 8 = omega (arith, left) in
      let no_bits : (olen + 7) / 8 * 8 - olen ≡ 0 = omega (arith, left) in
      let exact : value q.before * 2 ^ 64 + q.pack ≡ code_from (value it.before) str * 2 ^ 64 =
        rw none at h.bits in
      rw none (record {
        goes_on = refl;
        written = w.written;
        counted = rw whole w.counted;
        behind = w.behind;
        left = rw whole w.left;
        bits = rw no_bits (omega (arith, exact, h.is_uint64));
      })

  padding :
      (q : Packer) (b : ℕ) (rest : Bytes)
      → 0 < q.pl
      → q.after ≡ b ∷ rest
      → Encodes (value it.before) 0 it.before it.after str (true, q)
      → Returns (Written it str) (pad_last q.pack q.pl q.before (b ∷ rest))
  unfolding pad_last
  padding q b rest some_left e (_, h, left, w) =
      let lt : q.pl < 8 = omega (arith, left) in
      let whole : (olen + 7) / 8 ≡ olen / 8 + 1 = omega (arith, left) in
      let bits_left : (olen + 7) / 8 * 8 - olen ≡ 8 - q.pl = omega (arith, left) in
      let last = (q.pack + 0xff * 2 ^ (64 - (q.pl + 8))) / 2 ^ 56 in
      let n = code_from (value it.before) str in
      let padded : Written it str (record {
        result = hpk_more;
        at = record { before = q.before ++ last ∷ []; after = rest };
      }) =
        record {
          goes_on = refl;
          written = w.written ++ last ∷ [];
          counted = rw (whole, length-append) (omega (arith, w.counted));
          behind = rw w.behind (append_assoc it.before w.written (last ∷ []));
          left = rw whole (ap (drop 1) (sym e ∙ w.left) ∙ drop-drop (olen / 8) 1 it.after);
          bits =
              rw (bits_left, value-concat 0 q.before last)
                (last_byte q.pl (value q.before) q.pack n some_left lt h.is_uint64 h.bits);
        } in
      ground (arith, padded)

  filled :
      (q : Packer) (after : Bytes)
      → q.after ≡ after
      → 0 < q.pl
      → (olen + 7) / 8 ≤ length it.after
      → Encodes (value it.before) 0 it.before it.after str (true, q)
      → Returns (Written it str) (pad_last q.pack q.pl q.before after)
  filled q [] e pos room (z, h, left, w) =
      let none_left : length (drop (olen / 8) it.after) ≡ 0 = ap length (sym w.left ∙ e) in
      absurd (omega (arith, none_left, left, length-drop (olen / 8) it.after))
  filled q (b ∷ rest) e pos room enc = padding q b rest pos e enc

  finished :
      (q : Packer)
      → (olen + 7) / 8 ≤ length it.after
      → Encodes (value it.before) 0 it.before it.after str (true, q)
      → Returns (Written it str) (pad_last q.pack q.pl q.before q.after)
  finished q room enc = elim (dec_lt 0 q.pl) [
    | yes pos ↦ filled q q.after refl pos room enc
    | no none ↦ no_padding q (omega arith) enc
  ]

  -- Given room for what `huff_simulate` counts, and a byte at least, `huff_encode` returns `hpk_more`
  -- and writes the codes of the text, one after the other, and ones up to the next whole byte; what
  -- stands before and what is left behind them stay as they were.
  pub huff_encode-Written :
      0 < length it.after
      → (olen + 7) / 8 ≤ length it.after
      → Returns (Written it str) (huff_encode it str)
  unfolding huff_encode
  huff_encode-Written some_room room =
      let start : Packer = record { pack = 0; pl = 0; before = it.before; after = it.after } in
      let holds : Holds (value it.before) start = record {
        fits = omega arith;
        is_uint64 = omega arith;
        bits = omega arith;
      } in
      let (ok, h, left, w) =
        encode_chars-Encodes str (value it.before) start holds (omega arith) (omega arith) in
      let q = (encode_chars str start).1 in
      rw (is_end-false it.after some_room, ok) (finished q room (refl, h, left, w))
