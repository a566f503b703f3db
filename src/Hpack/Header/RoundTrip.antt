-- ===== src/Hpack/Header/RoundTrip.antt =====
-- A header field with texts of its own: what `HPK_EncHdr` writes, `HPK_DecHdr` reads back.
use vtest.Base.{
  ℕ, ◌+◌, ◌≤◌, ◌<◌, ◌≡◌, refl, ◌∙◌, [], ◌∷◌, ◌++◌, Bytes, Bool, true, false, drop, ◌>>=◌, ret,
  length, arith, length-drop, drop-drop, append_assoc, length-append,
}
use vtest.Hpack.Header.{
  hpk_enc_hdr, hpk_dec_hdr, dec_literal, dec_value, enc_literal, enc_after_key, enc_value,
}
use vtest.Hpack.HuffDecode.{Stbl}
use vtest.Hpack.Num.{num_decode}
use vtest.Hpack.Num.RoundTrip.{representation, representation-pos, num_decode-representation}
use vtest.Hpack.Str.Wire.{wire, IsSendable, str_encode-wire, str_decode-wire}
use vtest.Hpack.Table.Evict.{IsValid, state, pushed, entry_of, with_texts, push_header-pushed}
use vtest.Hpack.Table.{push_header}
use vtest.Hpack.Types.{
  hpk_more, HpkIndexed, hpk_unset, hpk_inc, hpk_not, hpk_never, HpkHdr, HpkCtx, iter_done, no_txt,
}

-- The literal representations, with their first bytes where the key is sent along.
pub data Literal : Type 0 where
  with_indexing without_indexing never_indexed : Literal

abbrev pub indexed : Literal → HpkIndexed
indexed with_indexing = hpk_inc
indexed without_indexing = hpk_not
indexed never_indexed = hpk_never

abbrev pub first_byte : Literal → ℕ
first_byte with_indexing = 0x40
first_byte without_indexing = 0x00
first_byte never_indexed = 0x10

-- The field on the wire (RFC 7541, sections 6.2.1 to 6.2.3).
abbrev pub field : Literal → Bytes → Bytes → Bytes
field l k v = first_byte l ∷ (wire k ++ wire v)

-- The table behind the field: incremental indexing adds an entry.
abbrev pub table_after : Literal → HpkCtx → Bytes → Bytes → HpkCtx
table_after with_indexing ctx k v = state ctx.maxsize (pushed ctx.maxsize (entry_of k v) ctx.dyntbl)
table_after without_indexing ctx k v = ctx
table_after never_indexed ctx k v = ctx

-- The header that the caller of `HPK_EncHdr` gives, and that `HPK_DecHdr` fills in.
abbrev pub own_texts : Literal → Bytes → Bytes → HpkHdr
own_texts l k v = with_texts k v false false (indexed l) 0

abbrev pub unset : HpkHdr
unset = record { key = no_txt; value = no_txt; t = hpk_unset; i = 0 }

wire-pos : (bs : Bytes) → 0 < length (wire bs)
wire-pos bs =
    let rep = representation 7 0 (length bs) in
    omega (arith, representation-pos 7 0 (length bs), length-append rep bs)

iter_done_more : (bs : Bytes) → 0 < length bs → iter_done bs ≡ hpk_more
iter_done_more [] h = absurd (omega arith)
iter_done_more (b ∷ bs) h = refl

abbrev must_index : Literal → Bool
must_index with_indexing = true
must_index without_indexing = false
must_index never_indexed = false

module _ (ctx : HpkCtx) (k v : Bytes) (valid : IsValid ctx) (k_sendable : IsSendable k)
    (v_sendable : IsSendable v) where
  pushed_lem :
      push_header ctx (own_texts with_indexing k v) ≡ ret (table_after with_indexing ctx k v)
  pushed_lem =
      (push_header-pushed k v false false hpk_inc 0 ctx valid
        (omega (arith, k_sendable.0, v_sendable.0))).0

  dec_value-wire :
      (l : Literal) (s : Stbl) (before rest : Bytes)
      → 0 < length (v ++ rest)
      → dec_value s
          (must_index l)
          ctx
          (record (own_texts l k v) { value = no_txt })
          (record { before = before; after = wire v ++ rest })
        ≡ ret (record {
          result = iter_done rest;
          header = own_texts l k v;
          ctx = table_after l ctx k v;
          at = record { before = before ++ wire v; after = rest };
        })
  unfolding dec_value
  dec_value-wire with_indexing s before rest some_left =
      ground (arith, str_decode-wire v v_sendable s no_txt before rest some_left, pushed_lem)
  dec_value-wire _ s before rest some_left =
      ground (arith, str_decode-wire v v_sendable s no_txt before rest some_left)

  enc_value-wire :
      (l : Literal) (before after : Bytes)
      → length (wire v) ≤ length after
      → enc_value (must_index l) ctx (own_texts l k v) (record { before = before; after = after })
        ≡ ret (record {
          result = iter_done (drop (length (wire v)) after);
          ctx = table_after l ctx k v;
          at = record { before = before ++ wire v; after = drop (length (wire v)) after };
        })
  unfolding enc_value
  enc_value-wire with_indexing before after room =
      ground (arith, str_encode-wire v v_sendable before after room, pushed_lem)
  enc_value-wire _ before after room =
      ground (arith, str_encode-wire v v_sendable before after room)

  -- The key behind the first byte, and then the value.
  dec_literal-wire :
      (l : Literal) (s : Stbl) (before rest : Bytes)
      → 0 < length (v ++ rest)
      → dec_literal s
          (must_index l)
          ctx
          (record unset { t = indexed l })
          (record {
            result = hpk_more;
            num = 0;
            at = record { before = before; after = wire k ++ (wire v ++ rest) };
          })
        ≡ ret (record {
          result = iter_done rest;
          header = own_texts l k v;
          ctx = table_after l ctx k v;
          at = record { before = (before ++ wire k) ++ wire v; after = rest };
        })
  unfolding dec_literal
  dec_literal-wire l s before rest some_left =
      let more : 0 < length (wire v ++ rest) =
        omega (arith, wire-pos v, length-append (wire v) rest) in
      let some_text : 0 < length (k ++ (wire v ++ rest)) =
        omega (arith, more, length-append k (wire v ++ rest)) in
      rw
        (
          str_decode-wire k k_sendable s no_txt before (wire v ++ rest) some_text,
          iter_done_more (wire v ++ rest) more,
        )
        (dec_value-wire l s (before ++ wire k) rest some_left)

  enc_literal-wire :
      (l : Literal) (pref b : ℕ) (before after : Bytes)
      → length (wire k) + length (wire v) ≤ length after
      → enc_literal pref (must_index l) ctx (own_texts l k v) before (b ∷ after)
        ≡ ret (record {
          result = iter_done (drop (length (wire k) + length (wire v)) after);
          ctx = table_after l ctx k v;
          at = record {
            before = ((before ++ b ∷ []) ++ wire k) ++ wire v;
            after = drop (length (wire k) + length (wire v)) after;
          };
        })
  unfolding enc_literal enc_after_key
  enc_literal-wire l pref b before after room =
      let left = length-drop (length (wire k)) after in
      let more : 0 < length (drop (length (wire k)) after) = omega (arith, left, wire-pos v) in
      rw
        (
          str_encode-wire k k_sendable (before ++ b ∷ []) after (omega arith),
          iter_done_more (drop (length (wire k)) after) more,
        )
        (enc_value-wire l ((before ++ b ∷ []) ++ wire k) (drop (length (wire k)) after)
            (omega (arith, left))
          ∙ rw (drop-drop (length (wire k)) (length (wire v)) after))

  joined :
      (before : Bytes) (b : ℕ)
      → ((before ++ b ∷ []) ++ wire k) ++ wire v ≡ before ++ (b ∷ (wire k ++ wire v))
  joined before b =
      rw (append_assoc (before ++ b ∷ []) (wire k) (wire v))
        (append_assoc before (b ∷ []) (wire k ++ wire v))

  field_written :
      (l : Literal) (pref b : ℕ) (before after : Bytes)
      → length (wire k ++ wire v) ≤ length after
      → enc_literal pref (must_index l) ctx (own_texts l k v) before (b ∷ after)
        ≡ ret (record {
          result = iter_done (drop (length (wire k ++ wire v)) after);
          ctx = table_after l ctx k v;
          at = record {
            before = before ++ (b ∷ (wire k ++ wire v));
            after = drop (length (wire k ++ wire v)) after;
          };
        })
  field_written l pref b before after room =
      let sizes = length-append (wire k) (wire v) in
      rw (sizes, ← joined before b) (enc_literal-wire l pref b before after (omega (arith, sizes)))

  -- The first byte of a field with a key of its own, and the rest of it.
  field_read :
      (l : Literal) (s : Stbl) (pref b : ℕ) (before rest : Bytes)
      → 0 < length (v ++ rest)
      → num_decode (record { before = before; after = b ∷ (wire k ++ (wire v ++ rest)) }) pref
        ≡ ret (record {
          result = iter_done (wire k ++ (wire v ++ rest));
          num = 0;
          at = record { before = before ++ b ∷ []; after = wire k ++ (wire v ++ rest) };
        })
      → (num_decode (record { before = before; after = b ∷ ((wire k ++ wire v) ++ rest) }) pref
          >>= dec_literal s (must_index l) ctx (record unset { t = indexed l }))
        ≡ ret (record {
          result = iter_done rest;
          header = own_texts l k v;
          ctx = table_after l ctx k v;
          at = record { before = before ++ (b ∷ (wire k ++ wire v)); after = rest };
        })
  field_read l s pref b before rest some_left number =
      let more : 0 < length (wire k ++ (wire v ++ rest)) =
        omega (arith, wire-pos k, length-append (wire k) (wire v ++ rest)) in
      rw
        (
          append_assoc (wire k) (wire v) rest,
          number,
          iter_done_more (wire k ++ (wire v ++ rest)) more,
          ← joined before b,
        )
        (dec_literal-wire l s (before ++ b ∷ []) rest some_left)

  -- `HPK_EncHdr` writes a literal field with texts of its own in the form of the RFC, given room for
  -- it, and adds it to a valid table if it is to be indexed.
  pub hpk_enc_hdr-field :
      (l : Literal) (before after : Bytes)
      → length (field l k v) ≤ length after
      → hpk_enc_hdr ctx (record { before = before; after = after }) (own_texts l k v)
        ≡ ret (record {
          result = iter_done (drop (length (field l k v)) after);
          ctx = table_after l ctx k v;
          at = record { before = before ++ field l k v; after = drop (length (field l k v)) after };
        })
  unfolding hpk_enc_hdr
  hpk_enc_hdr-field l before [] room = absurd (omega arith)
  hpk_enc_hdr-field with_indexing before (b ∷ after) room =
      field_written with_indexing 6 0x40 before after (omega arith)
  hpk_enc_hdr-field without_indexing before (b ∷ after) room =
      field_written without_indexing 4 0x00 before after (omega arith)
  hpk_enc_hdr-field never_indexed before (b ∷ after) room =
      field_written never_indexed 4 0x10 before after (omega arith)

  -- `HPK_DecHdr` reads such a field back, with the same effect on its table, unless the value is
  -- empty and nothing follows it. What is left of the buffer stays unread.
  pub hpk_dec_hdr-field :
      (l : Literal) (s : Stbl) (before rest : Bytes)
      → 0 < length (v ++ rest)
      → hpk_dec_hdr s ctx (record { before = before; after = field l k v ++ rest }) unset
        ≡ ret (record {
          result = iter_done rest;
          header = own_texts l k v;
          ctx = table_after l ctx k v;
          at = record { before = before ++ field l k v; after = rest };
        })
  unfolding hpk_dec_hdr representation
  hpk_dec_hdr-field with_indexing s before rest some_left =
      field_read with_indexing s 6 0x40 before rest some_left
        (num_decode-representation 6 0x40 0 before _ (omega arith) (omega arith))
  hpk_dec_hdr-field without_indexing s before rest some_left =
      field_read without_indexing s 4 0x00 before rest some_left
        (num_decode-representation 4 0x00 0 before _ (omega arith) (omega arith))
  hpk_dec_hdr-field never_indexed s before rest some_left =
      field_read never_indexed s 4 0x10 before rest some_left
        (num_decode-representation 4 0x10 0 before _ (omega arith) (omega arith))
