-- ===== src/Http2/Payload/Fragment.antt =====
-- A header frame that is nothing but a fragment, for `parse_hdr` of src/vtc_http2.c.
use vtest.Base.{
  ◌^◌, ◌<◌, ◌≡◌, refl, [], ◌∷◌, ◌++◌, Bytes, length, length-append, take-append, false, ◌&&◌, ◌==◌,
  ret, arith, ◌⊎◌,
}
use vtest.Hpack.Table.{sub32}
use vtest.Http2.Frame.{Frame}
use vtest.Http2.Parse.{parsed}
use vtest.Http2.Payload.{parse_hdr, hdr_fields, bcat, headers, continuation, push_promise}
use vtest.Http2.State.{Http, Stream, has_flag, padded_flag, priority_flag, memory}

bcat_all :
    (vsb content : Bytes) → bcat vsb (memory content) 0 (length content) ≡ ret (vsb ++ content)
unfolding bcat
bcat_all vsb [] = ground arith
bcat_all vsb (c ∷ cs) = ground (arith, length-append cs (0 ∷ []), take-append cs (0 ∷ []))

pub parse_hdr-fragment :
    (hp : Http) (s : Stream) (f : Frame) (vsb : Bytes)
    → (f.type ≡ headers) ⊎ (f.type ≡ continuation)
    → has_flag f.flags padded_flag ≡ false
    → has_flag f.flags priority_flag ≡ false
    → f.size ≡ length f.content
    → f.size < 2 ^ 32
    → parse_hdr hp s f vsb ≡ ret (parsed hp s f, vsb ++ f.content)
unfolding parse_hdr hdr_fields
parse_hdr-fragment hp s f vsb ty no_pad no_prio sized small =
    let no_promise : (f.type == push_promise) ≡ false = ground (arith, ty) in
    let left : sub32 f.size 0 ≡ length f.content = omega (arith, sized, small) in
    let put = bcat_all vsb f.content in
    let no_fields : ((f.type == headers) && has_flag f.flags priority_flag) ≡ false =
      ground (arith, no_prio) in
    simp (no_pad, no_fields, no_promise, left, put) refl
