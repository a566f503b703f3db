-- ===== src/Http2/Payload/Headers.antt =====
-- What header frames hand to the decoder: `parse_hdr` of src/vtc_http2.c, with padding and priority
-- fields.
use vtest.Base.{
  ℕ, suc, ◌+◌, ◌*◌, ◌/◌, ◌%◌, ◌^◌, ◌<◌, ◌≡◌, refl, ◌∙◌, ap, [], ◌∷◌, ◌++◌, append_assoc, Bytes,
  length, length-append, take-append, drop-append, true, false, ◌==◌, leb, if◌then◌else◌, ret,
  arith,
}
use vtest.Hpack.Table.{sub32}
use vtest.Http2.Bytes.{vbe32dec}
use vtest.Http2.Frame.{Frame, Meta}
use vtest.Http2.State.{
  Http, Stream, has_flag, padded_flag, priority_flag, memory, exclusive_stream_dependency,
}
use vtest.Http2.Parse.{parsed}
use vtest.Http2.Payload.{
  parse_hdr, padded_hdr, hdr_fields, check_padding, bcat, with_weight, signed8, headers,
}

-- A block in the buffer, behind `before` and before `behind`
bcat-block :
    (vsb before block behind : Bytes)
    → bcat vsb (before ++ (block ++ behind)) (length before) (length block) ≡ ret (vsb ++ block)
unfolding bcat
bcat-block vsb before block behind =
    let dropped = drop-append before (block ++ behind) in
    rw (dropped, take-append block behind, length-append block behind) (ground arith)

bcat-memory :
    (content vsb before block behind : Bytes) (n : ℕ)
    → memory content ≡ before ++ (block ++ behind)
    → n ≡ length block
    → bcat vsb (memory content) (length before) n ≡ ret (vsb ++ block)
bcat-memory content vsb before block behind n split size =
    rw (split, size) (bcat-block vsb before block behind)

-- Without priority fields the block begins where the padding length ends.
plain_fields :
    (hp : Http) (s : Stream) (f : Frame) (vsb before block behind : Bytes) (size : ℕ)
    → f.type ≡ headers
    → has_flag f.flags priority_flag ≡ false
    → memory f.content ≡ before ++ (block ++ behind)
    → sub32 size (length before) ≡ length block
    → hdr_fields hp s f vsb (length before) size ≡ ret (parsed hp s f, vsb ++ block)
unfolding hdr_fields
plain_fields hp s f vsb before block behind size ty no_prio split sized =
    let put =
      bcat-memory f.content vsb before block behind (sub32 size (length before)) split sized in
    let a_header : (f.type == headers) ≡ true = ground (arith, ty) in
    let no_promise : (f.type == 5) ≡ false = ground (arith, ty) in
    simp (a_header, no_promise, no_prio, put) refl

-- A HEADERS frame with padding and no priority fields: the block goes to the buffer, without the
-- padding and its length.
pub parse_hdr-padded :
    (hp : Http) (s : Stream) (f : Frame) (vsb block padding : Bytes)
    → f.type ≡ headers
    → has_flag f.flags padded_flag ≡ true
    → has_flag f.flags priority_flag ≡ false
    → f.content ≡ length padding ∷ block ++ padding
    → f.size ≡ length f.content
    → f.size < 2 ^ 32
    → parse_hdr hp s f vsb
      ≡ ret (parsed hp s (record f { md = Meta.padded (length padding) }), vsb ++ block)
unfolding parse_hdr padded_hdr check_padding
parse_hdr-padded hp s f vsb block padding ty is_padded no_prio split sized small =
    let total : f.size ≡ suc (length block + length padding) =
      sized ∙ ap length split ∙ ap suc (length-append block padding) in
    let within : leb f.size (length padding) ≡ false = ground (arith, total) in
    let left : sub32 (sub32 f.size (length padding)) 1 ≡ length block =
      omega (arith, total, small) in
    let behind = padding ++ 0 ∷ [] in
    let f' = record f { md = Meta.padded (length padding) } in
    let stored : memory f.content ≡ (length padding ∷ []) ++ (block ++ behind) =
      ap memory split ∙ ap (λ r. length padding ∷ r) (append_assoc block padding (0 ∷ [])) in
    let fields =
      plain_fields hp s f' vsb (length padding ∷ []) block behind (sub32 f.size (length padding)) ty
        no_prio stored left in
    let not_cont : (f.type == 9) ≡ false = ground (arith, ty) in
    simp (is_padded, not_cont, stored, within) fields

-- A stream and its connection under the priority fields that were read
abbrev pub prioritised : Stream → ℕ → ℕ → Stream
prioritised s n w = record s { dependency = n % 2 ^ 31; weight = signed8 w }

abbrev pub reordered : Http → Stream → ℕ → Http
reordered hp s n = if n / 2 ^ 31 == 0 then hp else exclusive_stream_dependency hp s

abbrev pub number : ℕ → ℕ → ℕ → ℕ → ℕ
number a b c d = a * 2 ^ 24 + b * 2 ^ 16 + c * 2 ^ 8 + d

-- With priority fields, these are read from the first five bytes, whatever lies before the block.
prio_fields :
    (hp : Http) (s : Stream) (f : Frame) (vsb : Bytes) (a b c d w : ℕ) (rest block : Bytes)
    (shift size : ℕ)
    → f.type ≡ headers
    → has_flag f.flags priority_flag ≡ true
    → memory f.content ≡ a ∷ b ∷ c ∷ d ∷ w ∷ rest
    → bcat vsb (memory f.content) (shift + 5) (sub32 size (shift + 5)) ≡ ret (vsb ++ block)
    → let n = number a b c d in
      hdr_fields hp s f vsb shift size
      ≡ ret (parsed (reordered hp (prioritised s n w) n) (prioritised s n w) f, vsb ++ block)
unfolding hdr_fields with_weight vbe32dec
prio_fields hp s f vsb a b c d w rest block shift size ty prio split put =
    let a_header : (f.type == headers) ≡ true = ground (arith, ty) in
    let put_there = rw split at put in simp (a_header, prio, split, put_there) refl

-- A HEADERS frame with priority fields and no padding: the stream gets the dependency and the weight,
-- exclusive_stream_dependency is called where the dependency is exclusive, and the block goes to the buffer.
-- The weight is a signed byte.
pub parse_hdr-priority :
    (hp : Http) (s : Stream) (f : Frame) (vsb : Bytes) (a b c d w : ℕ) (block : Bytes)
    → f.type ≡ headers
    → has_flag f.flags padded_flag ≡ false
    → has_flag f.flags priority_flag ≡ true
    → f.content ≡ a ∷ b ∷ c ∷ d ∷ w ∷ block
    → f.size ≡ length f.content
    → f.size < 2 ^ 32
    → parse_hdr hp s f vsb
      ≡ ret (
        parsed
            (reordered hp (prioritised s (number a b c d) w) (number a b c d))
            (prioritised s (number a b c d) w)
            f,
        vsb ++ block,
      )
unfolding parse_hdr
parse_hdr-priority hp s f vsb a b c d w block ty no_pad prio split sized small =
    let stored : memory f.content ≡ (a ∷ b ∷ c ∷ d ∷ w ∷ []) ++ (block ++ 0 ∷ []) =
      ap memory split in
    let left : sub32 f.size 5 ≡ length block = omega (arith, sized, ap length split, small) in
    let put =
      bcat-memory f.content vsb (a ∷ b ∷ c ∷ d ∷ w ∷ []) block (0 ∷ []) (sub32 f.size 5) stored
        left in
    simp no_pad
      (prio_fields hp s f vsb a b c d w (block ++ 0 ∷ []) block 0 f.size ty prio stored put)

-- A HEADERS frame with both: the dependency is read from the padding length and the three bytes behind
-- it, and the weight from the last byte of the dependency. The block is the right one.
pub parse_hdr-padded_priority :
    (hp : Http) (s : Stream) (f : Frame) (vsb : Bytes) (a b c d w : ℕ) (block padding : Bytes)
    → f.type ≡ headers
    → has_flag f.flags padded_flag ≡ true
    → has_flag f.flags priority_flag ≡ true
    → f.content ≡ length padding ∷ a ∷ b ∷ c ∷ d ∷ w ∷ block ++ padding
    → f.size ≡ length f.content
    → f.size < 2 ^ 32
    → let n = number (length padding) a b c in
      parse_hdr hp s f vsb
      ≡ ret (
        parsed
            (reordered hp (prioritised s n d) n)
            (prioritised s n d)
            (record f { md = Meta.padded (length padding) }),
        vsb ++ block,
      )
unfolding parse_hdr padded_hdr check_padding
parse_hdr-padded_priority hp s f vsb a b c d w block padding ty is_padded prio split sized small =
    let pad = length padding in
    let total : f.size ≡ 6 + (length block + pad) =
      omega (arith, sized, ap length split, length-append block padding) in
    let within : leb f.size pad ≡ false = ground (arith, total) in
    let left : sub32 (sub32 f.size pad) 6 ≡ length block = omega (arith, total, small) in
    let f' = record f { md = Meta.padded pad } in
    let behind = padding ++ 0 ∷ [] in
    let stored : memory f.content ≡ (pad ∷ a ∷ b ∷ c ∷ d ∷ w ∷ []) ++ (block ++ behind) =
      ap memory split
      ∙ ap (λ r. pad ∷ a ∷ b ∷ c ∷ d ∷ w ∷ r) (append_assoc block padding (0 ∷ [])) in
    let put =
      bcat-memory f.content vsb (pad ∷ a ∷ b ∷ c ∷ d ∷ w ∷ []) block behind
        (sub32 (sub32 f.size pad) 6) stored left in
    let fields =
      prio_fields hp s f' vsb pad a b c d (w ∷ (block ++ behind)) block 1 (sub32 f.size pad) ty prio
        stored put in
    let not_cont : (f.type == 9) ≡ false = ground (arith, ty) in
    simp (is_padded, not_cont, stored, within) fields
