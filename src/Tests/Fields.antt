-- ===== src/Tests/Fields.antt =====
-- Strings and header fields of HPACK at concrete inputs.
use vtest.Base.{◌≡◌, refl, [], ◌∷◌, ◌++◌, Bytes, codes, true, none, ret, arith, length, Returns}
use vtest.Hpack.CodingTable.{coding_table}
use vtest.Hpack.Header.RoundTrip.{
  with_indexing, field, table_after, own_texts, unset, hpk_enc_hdr-field, hpk_dec_hdr-field,
}
use vtest.Hpack.Header.{hpk_enc_hdr, hpk_dec_hdr}
use vtest.Hpack.HuffDecode.{Stbl}
use vtest.Hpack.Huffman.Encode.{Written, huff_encode-Written}
use vtest.Hpack.Huffman.{huff_encode, bit_length, symbol_of}
use vtest.Hpack.Num.RoundTrip.{representation}
use vtest.Hpack.Str.Wire.{wire, IsSendable}
use vtest.Hpack.Table.Evict.{IsValid, state}
use vtest.Hpack.Types.{HpkCtx, hpk_done, hpk_more}

-- A table that decodes nothing: the fields below are not coded by Huffman's code.
abbrev no_codes : Stbl
no_codes = record {
  Tbl = Unit {0};
  tbl_0 = tt;
  is_tbl_0 = λ _. true;
  msk = λ _. 8;
  syms = λ _ _. record { csm = 8; chr = 0; nxt = none };
}

abbrev key : Bytes
key = codes "k"

abbrev value : Bytes
value = codes "some value"

abbrev empty_table : HpkCtx
empty_table = state 4096 []

empty_table-IsValid : IsValid empty_table
empty_table-IsValid = record { counted = refl; bounded = omega arith; is_uint32 = omega arith }

key-IsSendable : IsSendable key
key-IsSendable = (omega arith, omega arith)

value-IsSendable : IsSendable value
value-IsSendable = (omega arith, omega arith)

wire-key : wire key ≡ 1 ∷ 107 ∷ []
unfolding representation
wire-key = refl

length-field : length (field with_indexing key value) ≡ 14
unfolding representation
length-field = refl

abbrev room : Bytes
room = 0 ∷ 0 ∷ 0 ∷ 0 ∷ 0 ∷ 0 ∷ 0 ∷ 0 ∷ 0 ∷ 0 ∷ 0 ∷ 0 ∷ 0 ∷ 0 ∷ []

hpk_enc_hdr-field_example :
    hpk_enc_hdr empty_table
      (record { before = []; after = room })
      (own_texts with_indexing key value)
    ≡ ret (record {
      result = hpk_done;
      ctx = table_after with_indexing empty_table key value;
      at = record { before = field with_indexing key value; after = [] };
    })
unfolding representation
hpk_enc_hdr-field_example =
    hpk_enc_hdr-field empty_table key value empty_table-IsValid key-IsSendable value-IsSendable
      with_indexing [] room (omega arith)

hpk_dec_hdr-field_example :
    hpk_dec_hdr no_codes empty_table
      (record { before = []; after = field with_indexing key value ++ 0 ∷ [] })
      unset
    ≡ ret (record {
      result = hpk_more;
      header = own_texts with_indexing key value;
      ctx = table_after with_indexing empty_table key value;
      at = record { before = field with_indexing key value; after = 0 ∷ [] };
    })
hpk_dec_hdr-field_example =
    hpk_dec_hdr-field empty_table key value empty_table-IsValid key-IsSendable value-IsSendable
      with_indexing no_codes [] (0 ∷ []) (omega arith)

-- Three codes of 6, 5 and 5 bits
bit_length-302 : bit_length 0 (codes "302") ≡ 16
unfolding bit_length symbol_of coding_table
bit_length-302 = refl

huff_encode-Written_example :
    Returns
      (Written (record { before = []; after = 0 ∷ 0 ∷ 0 ∷ [] }) (codes "302"))
      (huff_encode (record { before = []; after = 0 ∷ 0 ∷ 0 ∷ [] }) (codes "302"))
huff_encode-Written_example =
    huff_encode-Written (record { before = []; after = 0 ∷ 0 ∷ 0 ∷ [] }) (codes "302") (omega arith)
      (rw bit_length-302 (omega arith))
