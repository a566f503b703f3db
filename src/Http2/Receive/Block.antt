-- ===== src/Http2/Receive/Block.antt =====
-- A header block of several fields: what `HPK_EncHdr` makes of each of them, `decode_hdr` of
-- src/vtc_http2.c reads back.
use vtest.Base.{
  ℕ, zero, suc, ◌+◌, ◌≤◌, ◌<◌, ◌≡◌, refl, ap, ◌∙◌, List, [], ◌∷◌, ◌++◌, append_assoc, Bytes, length,
  map, length-append, Bool, false, ◌==◌, ret, ◌>>=◌, arith, All,
}
use vtest.Hpack.Header.RoundTrip.{
  Literal, with_indexing, without_indexing, never_indexed, field, table_after, own_texts,
  hpk_dec_hdr-field,
}
use vtest.Hpack.HuffDecode.{Stbl}
use vtest.Hpack.Str.Wire.{IsSendable}
use vtest.Hpack.Table.Evict.{IsValid, push_header-pushed}
use vtest.Hpack.Types.{HpkResult, hpk_more, hpk_done, hpk_err, hpk_inc, HpkHdr, HpkCtx}
use vtest.Http2.Receive.{decode_hdr, decode_slots, decoded, report, used_slots, max_hdr}

-- A field: its form, its key and its value
abbrev pub Field : Type 0
Field = Literal × Bytes × Bytes

-- Both texts can be sent, and the value is not empty.
abbrev pub IsField : Field → Type 0
IsField (l, k, v) = IsSendable k × IsSendable v × (0 < length v)

abbrev pub block : List Field → Bytes
block [] = []
block ((l, k, v) ∷ fs) = field l k v ++ block fs

abbrev pub table_behind : HpkCtx → List Field → HpkCtx
table_behind ctx [] = ctx
table_behind ctx ((l, k, v) ∷ fs) = table_behind (table_after l ctx k v) fs

abbrev pub header : Field → HpkHdr
header (l, k, v) = own_texts l k v

table_after-IsValid :
    (l : Literal) (ctx : HpkCtx) (k v : Bytes)
    → IsValid ctx
    → IsSendable k
    → IsSendable v
    → IsValid (table_after l ctx k v)
table_after-IsValid with_indexing ctx k v valid ks vs =
    (push_header-pushed k v false false hpk_inc 0 ctx valid (omega (arith, ks.0, vs.0))).1
table_after-IsValid without_indexing ctx k v valid ks vs = valid
table_after-IsValid never_indexed ctx k v valid ks vs = valid

decode_slots-block :
    (s : Stbl) (f : Field) (fs : List Field) (free : ℕ) (r : HpkResult) (ctx : HpkCtx)
    (before : Bytes) (slots : List HpkHdr)
    → IsValid ctx
    → All IsField (f ∷ fs)
    → length (f ∷ fs) ≤ free
    → decode_slots s free r ctx (record { before = before; after = block (f ∷ fs) }) slots
      ≡ ret (
          decoded hpk_done
            (table_behind ctx (f ∷ fs))
            (slots ++ map header (f ∷ fs))
            (length slots + length (f ∷ fs)))
unfolding decode_slots
decode_slots-block s f fs zero r ctx before slots valid h room = absurd (omega arith)
decode_slots-block s (l, k, v) [] (suc free) r ctx before slots valid ((ks, vs, some_value), h)
      room =
    let read =
      hpk_dec_hdr-field ctx k v valid ks vs l s before []
        (omega (arith, some_value, length-append v [])) in
    let counted = length-append slots (own_texts l k v ∷ []) in rw (read, counted) refl
decode_slots-block s (l, k, v) (g ∷ fs) (suc free) r ctx before slots valid
      ((ks, vs, some_value), h) room =
    let rest = block (g ∷ fs) in
    let read =
      hpk_dec_hdr-field ctx k v valid ks vs l s before rest
        (omega (arith, some_value, length-append v rest)) in
    let slots' = slots ++ own_texts l k v ∷ [] in
    let others =
      decode_slots-block s g fs free hpk_more (table_after l ctx k v) (before ++ field l k v) slots'
        (table_after-IsValid l ctx k v valid ks vs) h (omega arith) in
    let counted : length slots' + length (g ∷ fs) ≡ length slots + length ((l, k, v) ∷ g ∷ fs) =
      omega (arith, length-append slots (own_texts l k v ∷ [])) in
    rw (read, ← counted, ← append_assoc slots (own_texts l k v ∷ []) (map header (g ∷ fs))) others

-- A header block of at least one field and fewer than 64, with texts shorter than 2 ^ 30 and not of
-- length 127 and values that are not empty, and a valid table: `decode_hdr` fills the slots with these
-- fields, in order, and leaves the table that they make; it reports nothing.
pub decode_hdr-block :
    (s : Stbl) (fatal : Bool) (ctx : HpkCtx) (f : Field) (fs : List Field)
    → IsValid ctx
    → All IsField (f ∷ fs)
    → length (f ∷ fs) < max_hdr
    → decode_hdr s fatal ctx [] (block (f ∷ fs))
      ≡ ret (table_behind ctx (f ∷ fs), map header (f ∷ fs))
unfolding decode_hdr used_slots report
decode_hdr-block s fatal ctx (l, k, v) fs valid h few =
    let all = decode_slots-block s (l, k, v) fs 64 hpk_err ctx [] [] valid h (omega arith) in
    let not_full : (0 + suc (length fs) == max_hdr) ≡ false = ground (arith, few) in
    ap (λ o. o >>= report fatal) all ∙ rw not_full refl
