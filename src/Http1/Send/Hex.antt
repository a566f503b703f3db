-- ===== src/Http1/Send/Hex.antt =====
-- The digits that `%x` writes, and the chunks that src/vtc_http.c sends with them.
use vtest.Base.{
  ℕ, zero, suc, ◌+◌, ◌*◌, ◌/◌, ◌%◌, ◌^◌, ◌<◌, ◌≡◌, sym, ap, ◌∙◌, List, [], ◌∷◌, ◌++◌, append_assoc,
  Bytes, length, ◌==◌, arith, All, Bool-cases, inl, inr,
}
use vtest.Http1.Strtoul.{value_from}
use vtest.Http1.Body.Chunks.{Chunk, IsChunk, chunk_wire}
use vtest.Http1.Strtoul.Digits.{Below}
use vtest.Http1.Send.{hex_from, hex, printed_hex, nl}

digit_value : (n : ℕ) (ds : List ℕ) → n < 16 → value_from 16 0 (n % 16 ∷ ds) ≡ value_from 16 n ds
digit_value n ds h =
    let whole : 0 * 16 + n % 16 ≡ n = omega (arith, h) in ap (λ m. value_from 16 m ds) whole

hex_from-value :
    (places n : ℕ) (ds : List ℕ)
    → n < 16 * 16 ^ places
    → value_from 16 0 ((hex_from places n ds).0 ∷ (hex_from places n ds).1) ≡ value_from 16 n ds
unfolding hex_from
hex_from-value zero n ds h = digit_value n ds (omega (arith, h))
hex_from-value (suc places) n ds h = elim (Bool-cases (n / 16 == 0)) [
  | inl low ↦ let small : n < 16 = ground (arith, low) in rw low (digit_value n ds small)
  | inr high ↦
      let fewer : n / 16 < 16 * 16 ^ places = omega (arith, h) in
      let whole : n / 16 * 16 + n % 16 ≡ n = omega arith in
      rw high
        (hex_from-value places (n / 16) (n % 16 ∷ ds) fewer ∙ ap (λ m. value_from 16 m ds) whole)
]

hex_from-Below :
    (places n : ℕ) (ds : List ℕ)
    → All (Below 16) ds
    → All (Below 16) ((hex_from places n ds).0 ∷ (hex_from places n ds).1)
unfolding hex_from
hex_from-Below zero n ds h = (omega arith, h)
hex_from-Below (suc places) n ds h = elim (Bool-cases (n / 16 == 0)) [
  | inl low ↦ rw low (omega arith, h)
  | inr high ↦ rw high (hex_from-Below places (n / 16) (n % 16 ∷ ds) (omega arith, h))
]

-- The chunk that the command `chunked` sends for a text
abbrev pub chunk_of : Bytes → Chunk
chunk_of text = record {
  first_digit = (hex (length text)).0;
  more_digits = (hex (length text)).1;
  bytes = text;
}

pub chunk_of-IsChunk : (text : Bytes) → length text < 2 ^ 31 → IsChunk (chunk_of text)
chunk_of-IsChunk text h = record {
  digits_below = hex_from-Below 15 (length text) [] (record {});
  counts = hex_from-value 15 (length text) [] (omega (arith, h));
  small = h;
}

pub chunk_of-wire :
    (text : Bytes) → chunk_wire (chunk_of text) ≡ printed_hex (length text) ++ nl ++ text ++ nl
chunk_of-wire text =
    let digits = printed_hex (length text) in
    append_assoc digits (13 ∷ []) (10 ∷ (text ++ nl))
    ∙ sym (append_assoc digits nl (text ++ nl))
    ∙ sym (append_assoc (digits ++ nl) text nl)
