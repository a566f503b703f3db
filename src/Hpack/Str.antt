-- ===== src/Hpack/Str.antt =====
-- The strings of HPACK: `str_encode` and `str_decode` of src/vtc_h2_hpack.c. An allocation never fails.
pub mod Wire
use vtest.Base.{
  ℕ, zero, suc, ◌+◌, ◌-◌, List, [], ◌∷◌, ◌++◌, Bytes, Bool, true, false, not, take, drop, ltb, leb,
  ◌==◌, if◌then◌else◌, Option, none, some, Outcome, ret, aborted, undefined, ◌>>=◌, length,
}
use vtest.Hpack.HuffDecode.{Stbl, huff_decode, Text}
use vtest.Hpack.Huffman.{huff_encode, huff_simulate}
use vtest.Hpack.Num.{Encoded, num_encode, Decoded, num_decode}
use vtest.Hpack.Types.{HpkResult, hpk_more, hpk_done, hpk_err, HpkTxt, Cursor, iter_done, bytes_of}

abbrev pub is_err : HpkResult → Bool
is_err hpk_err = true
is_err _ = false

abbrev pub is_more : HpkResult → Bool
is_more hpk_more = true
is_more _ = false

-- `*iter->buf = b`, where the caller has made sure, or not, that a byte is left.
abbrev pub put_head : ℕ → Bytes → Option Bytes
put_head b [] = none
put_head b (c ∷ after) = some (b ∷ after)

-- What follows the length: the check of the room, and the characters.
pub str_encode_chars : HpkTxt → ℕ → Encoded → Outcome Encoded
str_encode_chars t slen e =
    if is_err e.result
    then ret e
    else if ltb (length e.at.after) slen
    then ret (record e { result = hpk_err })
    else if t.huff
    then huff_encode e.at (bytes_of t)
    else ret (record {
      result = iter_done (drop slen e.at.after);
      at = record { before = e.at.before ++ take slen (bytes_of t); after = drop slen e.at.after };
    })

pub str_encode : Cursor → HpkTxt → Outcome Encoded
str_encode it t =
    let slen = huff_simulate (bytes_of t) t.huff in
    elim (put_head (if t.huff then 0x80 else 0) it.after) [
      | none ↦ aborted
      | some after ↦ do
        e ← num_encode (record it { after = after }) 7 slen
        str_encode_chars t slen e
    ]

-- A result, the string, and the iterator. `freed` tells that `t->ptr` was freed and still stands in `t`,
-- so that its text is not to be used or freed any more.
pub record StrDecoded : Type 0 where
  pub result : HpkResult
  pub text : HpkTxt
  pub at : Cursor
  pub freed : Bool

-- What follows the length: its check against the bytes that are left, and the characters.
pub str_decode_chars : Stbl → Bool → HpkTxt → Decoded → Outcome StrDecoded
str_decode_chars s huff t d =
    if not (is_more d.result)
    then ret (record { result = hpk_err; text = t; at = d.at; freed = false })
    else if length d.at.after == 0
    then aborted
    else if ltb (length d.at.after) d.num
    then ret (record { result = hpk_err; text = t; at = d.at; freed = false })
    else if huff
    then (do
      x ← huff_decode s d.at d.num
      ret (
          if length x.chars == 0
          then record { result = hpk_err; text = t; at = x.at; freed = true }
          else record {
            result = iter_done x.at.after;
            text = record { text = some x.chars; huff = true };
            at = x.at;
            freed = false;
          }))
    else ret (record {
      result = iter_done (drop d.num d.at.after);
      text = record { text = some (take d.num d.at.after); huff = false };
      at = record { before = d.at.before ++ take d.num d.at.after; after = drop d.num d.at.after };
      freed = false;
    })

-- `*iter->buf & 0x80`
abbrev pub top_bit : Bytes → Bool
top_bit [] = false
top_bit (b ∷ after) = leb 128 b

pub str_decode : Stbl → Cursor → HpkTxt → Outcome StrDecoded
str_decode s it t = do d ← num_decode it 7; str_decode_chars s (top_bit it.after) t d
