-- ===== src/Hpack/Huffman.antt =====
-- Huffman encoding: `huff_encode` and `huff_simulate` of src/vtc_h2_hpack.c. The bits that wait are at
-- the top of a uint64_t, and what is shifted in lies below them, so `|=` is `+`.
pub mod Value
pub mod Chars
pub mod Encode
use vtest.Base.{
  ℕ, zero, suc, ◌+◌, ◌-◌, ◌*◌, ◌/◌, ◌%◌, ◌^◌, List, [], ◌∷◌, ◌++◌, Bytes, Bool, true, false, not,
  ◌||◌, ltb, leb, ◌==◌, if◌then◌else◌, Outcome, ret, aborted, length, get_or, ◌>>=◌,
}
use vtest.Hpack.CodingTable.{Symbol, hpack, coding_table}
use vtest.Hpack.Num.{Encoded}
use vtest.Hpack.Types.{HpkResult, hpk_more, hpk_done, Cursor}

-- `coding_table[(uint8_t)c]`
unfoldable pub symbol_of : ℕ → Symbol
unfolding coding_table
symbol_of c = get_or coding_table (c % 256) (hpack 0 0)

-- The bits that wait, and the buffer.
pub record Packer : Type 0 where
  pub pack : ℕ
  pub pl : ℕ
  pub before : Bytes
  pub after : Bytes

abbrev done_at : HpkResult → Bytes → Bytes → Encoded
done_at r before after = record { result = r; at = record { before = before; after = after } }

-- `while (pl >= 8)`, and whether it ended without meeting the end of the buffer. A round takes eight
-- bits, so as many rounds as bits wait are enough.
pub flush : ℕ → ℕ → ℕ → Bytes → Bytes → Bool × Packer
flush zero pack pl before after =
    (true, record { pack = pack; pl = pl; before = before; after = after })
flush (suc rounds) pack pl before [] =
    (ltb pl 8, record { pack = pack; pl = pl; before = before; after = [] })
flush (suc rounds) pack pl before (b ∷ after) =
    let more =
      flush rounds (pack * 2 ^ 8 % 2 ^ 64) (pl - 8) (before ++ (pack / 2 ^ 56) ∷ []) after in
    if leb 8 pl
    then more
    else (true, record { pack = pack; pl = pl; before = before; after = b ∷ after })

abbrev flush_packer : Packer → Bool × Packer
flush_packer p = flush p.pl p.pack p.pl p.before p.after

-- `pl += s; pack |= (uint64_t)v << (64 - pl)`
pub add_symbol : Packer → Symbol → Packer
add_symbol p s = record p { pl = p.pl + s.size; pack = p.pack + s.val * 2 ^ (64 - (p.pl + s.size)) }

-- `while (len--)`
pub encode_chars : Bytes → Packer → Bool × Packer
encode_chars [] p = (true, p)
encode_chars (c ∷ cs) p =
    let (room, p') = flush_packer (add_symbol p (symbol_of c)) in
    let more = encode_chars cs p' in if room then more else (false, p')

-- The padding, `pl += 8; pack |= (uint64_t)0xff << (64 - pl)`.
pub pad_last : ℕ → ℕ → Bytes → Bytes → Outcome Encoded
pad_last pack pl before after =
    if pl == 0
    then ret (done_at hpk_more before after)
    else if leb 8 pl
    then aborted
    else elim after [
      | [] ↦ ret (done_at hpk_done before [])
      | b ∷ rest ↦
          ret
            (done_at hpk_more (before ++ ((pack + 0xff * 2 ^ (64 - (pl + 8))) / 2 ^ 56) ∷ []) rest)
    ]

abbrev is_end : Bytes → Bool
is_end [] = true
is_end (b ∷ bs) = false

pub huff_encode : Cursor → Bytes → Outcome Encoded
huff_encode it str =
    if is_end it.after
    then aborted
    else let start : Packer = record { pack = 0; pl = 0; before = it.before; after = it.after } in
      let (room, p) = encode_chars str start in
      if room
      then pad_last p.pack p.pl p.before p.after
      else ret (done_at hpk_done p.before p.after)

-- The bits that the codes of a text take.
unfoldable pub bit_length : ℕ → Bytes → ℕ
bit_length olen [] = olen
bit_length olen (c ∷ cs) = bit_length (olen + (symbol_of c).size) cs

-- `huff_simulate`, on the `ilen` bytes of a text
unfoldable pub huff_simulate : Bytes → Bool → ℕ
huff_simulate str huff =
    if not huff || length str == 0 then length str else (bit_length 0 str + 7) / 8
