-- ===== src/Hpack/Huffman/Chars.antt =====
-- The codes of a whole text: `encode_chars` of Hpack/Huffman.
use vtest.Hpack.Huffman.Value.{
  code_from, Holds, Wrote, Flushed, stays, flush-Flushed, symbol_of-IsCode, add_symbol-Holds,
}
use vtest.Base.{
  ℕ, ◌+◌, ◌*◌, ◌/◌, ◌%◌, ◌^◌, ◌≤◌, ◌<◌, ◌≡◌, refl, ap, ◌∙◌, [], ◌∷◌, ◌++◌, Bytes, true, length,
  append_assoc, arith, Bool, length-append, length-drop, drop-drop,
}
use vtest.Hpack.Huffman.{Packer, symbol_of, add_symbol, flush_packer, encode_chars, bit_length}

-- What `encode_chars` does to a text of the codes `str`, with room for them.
abbrev pub Encodes : ℕ → ℕ → Bytes → Bytes → Bytes → Bool × Packer → Type 0
Encodes n pl before after str (room, q) =
    (room ≡ true)
    × Holds (code_from n str) q
    × (q.pl ≡ bit_length pl str % 8)
    × Wrote before after (bit_length pl str / 8) q

-- The bits that wait may be counted at the end.
bit_length-add :
    (more olen : ℕ) (str : Bytes) → bit_length (olen + more) str ≡ bit_length olen str + more
unfolding bit_length
bit_length-add more olen [] = refl
bit_length-add more olen (c ∷ cs) =
    let size = (symbol_of c).size in
    let swapped : olen + more + size ≡ olen + size + more = omega arith in
    rw swapped (bit_length-add more (olen + size) cs)

-- Whole bytes may be taken off what waits.
bit_length_bytes : (pl : ℕ) (str : Bytes) → bit_length pl str ≡ bit_length (pl % 8) str + pl / 8 * 8
bit_length_bytes pl str =
    let parts : pl ≡ pl % 8 + pl / 8 * 8 = omega arith in
    ap (λ (t : ℕ). bit_length t str) parts ∙ bit_length-add (pl / 8 * 8) (pl % 8) str

Wrote-trans :
    (before after : Bytes) (j k : ℕ) (q r : Packer)
    → Wrote before after j q
    → Wrote q.before q.after k r
    → Wrote before after (j + k) r
Wrote-trans before after j k q r w x = record {
  written = w.written ++ x.written;
  counted = length-append w.written x.written ∙ omega (arith, w.counted, x.counted);
  behind = x.behind ∙ rw (w.behind) (append_assoc before w.written x.written);
  left = x.left ∙ rw w.left (drop-drop j k after);
}

bit_length-ge : (olen : ℕ) (str : Bytes) → olen ≤ bit_length olen str
bit_length-ge olen str =
    let e : 0 + olen ≡ olen = omega arith in omega (arith, rw e at (bit_length-add olen 0 str))

-- A symbol flushed, and the others encoded.
Encodes-cons :
    (c n n' pl : ℕ) (cs before after : Bytes) (q : Packer) (r : Bool × Packer)
    → code_from n (c ∷ cs) ≡ code_from n' cs
    → bit_length pl (c ∷ cs) ≡ bit_length (pl + (symbol_of c).size) cs
    → Flushed n' (pl + (symbol_of c).size) before after (true, q)
    → Encodes n' q.pl q.before q.after cs r
    → Encodes n pl before after (c ∷ cs) r
Encodes-cons c n n' pl cs before after q r en el (_, _, rest, w) (room, h, left, x) =
    let olen = pl + (symbol_of c).size in
    let bytes : bit_length olen cs ≡ bit_length q.pl cs + olen / 8 * 8 =
      rw rest (bit_length_bytes olen cs) in
    let count : olen / 8 + bit_length q.pl cs / 8 ≡ bit_length olen cs / 8 = omega (arith, bytes) in
    let same : bit_length q.pl cs % 8 ≡ bit_length olen cs % 8 = omega (arith, bytes) in
    (
      room,
      rw en h,
      rw el (left ∙ same),
      rw (el, ← count) (Wrote-trans before after (olen / 8) (bit_length q.pl cs / 8) q r.1 w x),
    )

pub encode_chars-Encodes :
    (str : Bytes) (n : ℕ) (p : Packer)
    → Holds n p
    → p.pl < 8
    → bit_length p.pl str / 8 ≤ length p.after
    → Encodes n p.pl p.before p.after str (encode_chars str p)
unfolding encode_chars bit_length code_from add_symbol
encode_chars-Encodes [] n p h lt room = stays n p.pack p.pl p.before p.after h lt
encode_chars-Encodes (c ∷ cs) n p h lt room =
    let s = symbol_of c in
    let n' = n * 2 ^ s.size + s.val in
    let q = add_symbol p s in
    let olen = p.pl + s.size in
    let flushed : Flushed n' olen p.before p.after (flush_packer q) =
      flush-Flushed olen n' q.pack olen p.before p.after
        (add_symbol-Holds n p s lt (symbol_of-IsCode c) h) (omega arith)
        (omega (arith, bit_length-ge olen cs)) in
    let q' = (flush_packer q).1 in
    let w = flushed.3 in
    let bytes : bit_length olen cs ≡ bit_length q'.pl cs + olen / 8 * 8 =
      rw flushed.2 (bit_length_bytes olen cs) in
    let fits : bit_length q'.pl cs / 8 ≤ length q'.after =
      rw w.left (omega (arith, bytes, length-drop (olen / 8) p.after)) in
    let others = encode_chars-Encodes cs n' q' flushed.1 (omega (arith, flushed.2)) fits in
    rw flushed.0 (
      Encodes-cons c n n' p.pl cs p.before p.after q' (encode_chars cs q') refl refl
        (refl, flushed.1, flushed.2, w) others)
