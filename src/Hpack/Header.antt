-- ===== src/Hpack/Header.antt =====
-- Header fields: `HPK_DecHdr` and `HPK_EncHdr` of src/vtc_h2_hpack.c, with the helpers `txtcpy` and
-- `gethpk_iterLen`. A `free` leaves no trace: what was freed is not read again.
pub mod RoundTrip
use vtest.Base.{
  ℕ, zero, suc, ◌+◌, ◌-◌, ◌/◌, ◌^◌, List, [], ◌∷◌, ◌++◌, Bytes, Bool, true, false, not, ltb, leb,
  ◌==◌, if◌then◌else◌, Option, none, some, Outcome, ret, aborted, undefined, ◌>>=◌, length,
}
use vtest.Hpack.HuffDecode.{Stbl}
use vtest.Hpack.Num.{Encoded, num_encode, Decoded, num_decode}
use vtest.Hpack.Str.{is_err, is_more, str_encode, StrDecoded, str_decode, put_head}
use vtest.Hpack.Table.{tbl_get_key, tbl_get_value, push_header, hpk_resize_tbl}
use vtest.Hpack.Types.{
  HpkResult, hpk_more, hpk_done, hpk_err, HpkIndexed, hpk_unset, hpk_idx, hpk_inc, hpk_not,
  hpk_never, HpkTxt, HpkHdr, HpkCtx, Cursor, iter_done,
}

-- `txtcpy`: the flag `huff` of the target stays.
pub txtcpy : HpkTxt → HpkTxt → Outcome HpkTxt
txtcpy to from = elim from.text [ none ↦ undefined | some bs ↦ ret (record to { text = some bs }) ]

-- `gethpk_iterLen`
pub gethpk_iter_len : Cursor → ℕ
gethpk_iter_len it = length it.before

-- A result, the header and the tables as the call leaves them, and the iterator.
pub record DecHdr : Type 0 where
  pub result : HpkResult
  pub header : HpkHdr
  pub ctx : HpkCtx
  pub at : Cursor

abbrev dec_hdr : HpkResult → HpkHdr → HpkCtx → Cursor → DecHdr
dec_hdr r h ctx at = record { result = r; header = h; ctx = ctx; at = at }

-- Copies the key of entry `num`, if there is one.
pub copy_key : HpkCtx → ℕ → HpkHdr → Outcome (Option HpkHdr)
copy_key ctx num h = elim (tbl_get_key ctx num) [
  | none ↦ ret none
  | some t ↦ do k ← txtcpy h.key t; ret (some (record h { key = k }))
]

pub copy_value : HpkCtx → ℕ → HpkHdr → Outcome (Option HpkHdr)
copy_value ctx num h = elim (tbl_get_value ctx num) [
  | none ↦ ret none
  | some t ↦ do v ← txtcpy h.value t; ret (some (record h { value = v }))
]

-- An indexed header field
pub dec_indexed : HpkCtx → HpkHdr → Decoded → Outcome DecHdr
dec_indexed ctx h d =
    if is_err d.result
    then ret (dec_hdr hpk_err h ctx d.at)
    else if d.num == 0
    then ret (dec_hdr hpk_err h ctx d.at)
    else (do
      keyed ← copy_key ctx d.num h
      elim keyed [
        | none ↦ ret (dec_hdr hpk_err h ctx d.at)
        | some h' ↦ do
          valued ← copy_value ctx d.num h'
          elim valued [
            | none ↦ ret (dec_hdr hpk_err h' ctx d.at)
            | some h'' ↦ ret (dec_hdr (iter_done d.at.after) h'' ctx d.at)
          ]
      ])

-- The value of a literal header field, and its entry in the table
pub dec_value : Stbl → Bool → HpkCtx → HpkHdr → Cursor → Outcome DecHdr
dec_value s must_index ctx h at = do
  v ← str_decode s at h.value
  let h' = record h { value = v.text }
  let kept = ret (dec_hdr (iter_done v.at.after) h' ctx v.at)
  let indexed = (do ctx' ← push_header ctx h'; ret (dec_hdr (iter_done v.at.after) h' ctx' v.at))
  if is_err v.result
      then ret (dec_hdr hpk_err h' ctx v.at)
      else if must_index
      then indexed
      else kept

-- The key of a literal header field: that of an entry, or one of its own. `free(header->key.ptr)` for a
-- key that `str_decode` has freed already has no meaning.
pub dec_literal : Stbl → Bool → HpkCtx → HpkHdr → Decoded → Outcome DecHdr
dec_literal s must_index ctx h d =
    if not (is_more d.result)
    then ret (dec_hdr hpk_err h ctx d.at)
    else let h' = record h { i = d.num } in
      let own = (do
        k ← str_decode s d.at h'.key
        let h'' = record h' { key = k.text }
        if is_more k.result
            then dec_value s must_index ctx h'' k.at
            else if k.freed
            then undefined
            else ret (dec_hdr hpk_err h'' ctx k.at)) in
      let indexed = (do
        keyed ← copy_key ctx d.num h'
        elim keyed [
          | none ↦ ret (dec_hdr hpk_err h' ctx d.at)
          | some h'' ↦ dec_value s must_index ctx h'' d.at
        ]) in
      if d.num == 0 then own else indexed

abbrev is_done : HpkResult → Bool
is_done hpk_done = true
is_done _ = false

-- A dynamic table size update
pub dec_resize : HpkCtx → HpkHdr → Decoded → Outcome DecHdr
dec_resize ctx h d =
    if not (is_done d.result)
    then ret (dec_hdr hpk_err h ctx d.at)
    else (do (ctx', r) ← hpk_resize_tbl ctx d.num; ret (dec_hdr r h ctx' d.at))

-- The ladder of `HPK_DecHdr` over the first byte
pub dec_first : Stbl → HpkCtx → HpkHdr → Cursor → ℕ → Outcome DecHdr
dec_first s ctx h it b =
    if leb 128 b
    then num_decode it 7 >>= dec_indexed ctx (record h { t = hpk_idx })
    else if b / 2 ^ 6 == 1
    then num_decode it 6 >>= dec_literal s true ctx (record h { t = hpk_inc })
    else if b / 2 ^ 4 == 0
    then num_decode it 4 >>= dec_literal s false ctx (record h { t = hpk_not })
    else if b / 2 ^ 4 == 1
    then num_decode it 4 >>= dec_literal s false ctx (record h { t = hpk_never })
    else if b / 2 ^ 5 == 1
    then num_decode it 5 >>= dec_resize ctx h
    else ret (dec_hdr hpk_err h ctx it)

pub hpk_dec_hdr : Stbl → HpkCtx → Cursor → HpkHdr → Outcome DecHdr
unfolding dec_first
hpk_dec_hdr s ctx it h = elim it.after [ [] ↦ aborted | b ∷ after ↦ dec_first s ctx h it b ]

-- A result, the tables, and the iterator, whose buffer has been written to.
pub record EncHdr : Type 0 where
  pub result : HpkResult
  pub ctx : HpkCtx
  pub at : Cursor

abbrev enc_hdr : HpkResult → HpkCtx → Cursor → EncHdr
enc_hdr r ctx at = record { result = r; ctx = ctx; at = at }

-- The value of a literal header field, and its entry in the table
pub enc_value : Bool → HpkCtx → HpkHdr → Cursor → Outcome EncHdr
enc_value must_index ctx h at = do
  e ← str_encode at h.value
  let indexed = (do ctx' ← push_header ctx h; ret (enc_hdr e.result ctx' e.at))
  if is_err e.result
      then ret (enc_hdr hpk_err ctx e.at)
      else if must_index
      then indexed
      else ret (enc_hdr e.result ctx e.at)

-- What follows the key, or its number: the value, if there is room for it
pub enc_after_key : Bool → HpkCtx → HpkHdr → Encoded → Outcome EncHdr
enc_after_key must_index ctx h e =
    if is_more e.result then enc_value must_index ctx h e.at else ret (enc_hdr hpk_err ctx e.at)

-- A literal header field, whose first byte has been written
pub enc_literal : ℕ → Bool → HpkCtx → HpkHdr → Bytes → Bytes → Outcome EncHdr
enc_literal pref must_index ctx h before [] = undefined
enc_literal pref must_index ctx h before (b ∷ after) =
    let own = str_encode (record { before = before ++ b ∷ []; after = after }) h.key in
    let numbered = num_encode (record { before = before; after = b ∷ after }) pref h.i in
    (if h.i == 0 then own else numbered) >>= enc_after_key must_index ctx h

-- An indexed header field
pub enc_indexed : HpkCtx → HpkHdr → Bytes → Bytes → Outcome EncHdr
enc_indexed ctx h before [] = undefined
enc_indexed ctx h before (b ∷ after) = do
  e ← num_encode (record { before = before; after = b ∷ after }) 7 h.i
  if is_err e.result then aborted else ret (enc_hdr (iter_done e.at.after) ctx e.at)

abbrev write_head : ℕ → Bytes → Bytes
write_head b [] = []
write_head b (c ∷ after) = b ∷ after

-- The `switch` of `HPK_EncHdr`, on the representation of the header
pub enc_switch : HpkIndexed → HpkCtx → HpkHdr → Cursor → Outcome EncHdr
enc_switch hpk_idx ctx h it = enc_indexed ctx h it.before (write_head 0x80 it.after)
enc_switch hpk_inc ctx h it = enc_literal 6 true ctx h it.before (write_head 0x40 it.after)
enc_switch hpk_not ctx h it = enc_literal 4 false ctx h it.before (write_head 0x00 it.after)
enc_switch hpk_never ctx h it = enc_literal 4 false ctx h it.before (write_head 0x10 it.after)
enc_switch hpk_unset ctx h it = aborted

pub hpk_enc_hdr : HpkCtx → Cursor → HpkHdr → Outcome EncHdr
unfolding enc_switch
hpk_enc_hdr ctx it h = enc_switch h.t ctx h it
