-- ===== src/Http2/Payload/Data.antt =====
-- What DATA frames deliver: `parse_data` of src/vtc_http2.c, with padding and without.
use vtest.Base.{
  ℕ, suc, ◌+◌, ◌-◌, ◌^◌, ◌<◌, ◌≤◌, ◌≡◌, ◌∙◌, ap, [], ◌∷◌, ◌++◌, append_assoc, append-nil, Bytes,
  length, length-append, take-append, true, false, ◌==◌, leb, ltb, if◌then◌else◌, ret, aborted,
  undefined, arith,
}
use vtest.Base.Int.{pos, ◌-ℤ◌}
use vtest.Hpack.Table.{sub32}
use vtest.Http2.Frame.{Frame, Meta}
use vtest.Http2.State.{Http, Stream, has_flag, padded_flag, is_null, memory}
use vtest.Http2.Parse.{Parsed, parsed}
use vtest.Http2.Payload.{parse_data, take_data, padded_data, check_padding}

-- The body grows by the bytes, and both windows shrink by their number; the window of stream 0 does
-- not.
abbrev pub delivered : Http → Stream → Frame → Bytes → Parsed
delivered hp s f bs =
    parsed (record hp { h2_win_self = hp.h2_win_self -ℤ pos (length bs) })
      (record s {
        win_self = if s.id == 0 then s.win_self else s.win_self -ℤ pos (length bs);
        body = s.body ++ bs;
      })
      f

-- What `take_data` makes of a buffer that begins with the bytes
take_data-append :
    (hp : Http) (s : Stream) (f : Frame) (b : ℕ) (bs rest : Bytes)
    → take_data hp s f (length (b ∷ bs)) false (b ∷ bs ++ rest) ≡ ret (delivered hp s f (b ∷ bs))
unfolding take_data
take_data-append hp s f b bs rest = ground (arith, length-append bs rest, take-append bs rest)

plain_content :
    (hp : Http) (s : Stream) (f : Frame) (bs : Bytes)
    → take_data hp s f (length bs) (is_null bs) (memory bs) ≡ ret (delivered hp s f bs)
unfolding take_data
plain_content hp s f [] = let e = append-nil s.body in ground (arith, e)
plain_content hp s f (b ∷ bs) = take_data-append hp s f b bs (0 ∷ [])

-- A DATA frame without padding is delivered whole, an empty one too.
pub parse_data-plain :
    (hp : Http) (s : Stream) (f : Frame)
    → has_flag f.flags padded_flag ≡ false
    → f.size ≡ length f.content
    → parse_data hp s f ≡ ret (delivered hp s f f.content)
unfolding parse_data
parse_data-plain hp s f plain sized =
    let on_size = ap (λ n. take_data hp s f n (is_null f.content) (memory f.content)) sized in
    rw plain (on_size ∙ plain_content hp s f f.content)

-- A padded DATA frame whose body is not empty: the body is delivered, and the padding is not. The
-- windows are not charged for the padding.
pub parse_data-padded :
    (hp : Http) (s : Stream) (f : Frame) (b : ℕ) (bs padding : Bytes)
    → has_flag f.flags padded_flag ≡ true
    → f.content ≡ length padding ∷ b ∷ bs ++ padding
    → f.size ≡ length f.content
    → f.size < 2 ^ 32
    → parse_data hp s f
      ≡ ret (delivered hp s (record f { md = Meta.padded (length padding) }) (b ∷ bs))
unfolding parse_data padded_data check_padding
parse_data-padded hp s f b bs padding is_padded split sized small =
    let total : f.size ≡ suc (suc (length bs + length padding)) =
      sized ∙ ap length split ∙ ap (λ n. suc (suc n)) (length-append bs padding) in
    let within : leb f.size (length padding) ≡ false = ground (arith, total) in
    let left : sub32 f.size (length padding + 1) ≡ length (b ∷ bs) = omega (arith, total, small) in
    let f' = record f { md = Meta.padded (length padding) } in
    let taken = take_data-append hp s f' b bs (padding ++ 0 ∷ []) in
    let on_content = ap (λ c. padded_data hp s f (memory c)) split in
    let joined = append_assoc bs padding (0 ∷ []) in
    rw is_padded (on_content ∙ rw (within, left, joined) taken)

-- A padding as long as the frame or longer: the test ends where errors are fatal. Where they are not,
-- the size wraps around, and the copy runs over the end of the frame.
pub parse_data-overlong :
    (hp : Http) (s : Stream) (f : Frame) (pad : ℕ) (bs : Bytes)
    → has_flag f.flags padded_flag ≡ true
    → f.content ≡ pad ∷ bs
    → f.size ≡ length f.content
    → f.size < 2 ^ 24
    → f.size ≤ pad
    → parse_data hp s f ≡ (if hp.fatal then aborted else undefined)
unfolding parse_data padded_data check_padding take_data
parse_data-overlong hp s f pad bs is_padded split sized small long =
    let total : f.size ≡ suc (length bs) = sized ∙ ap length split in
    let beyond : leb f.size pad ≡ true = ground (arith, long) in
    let over : ltb (length (bs ++ 0 ∷ [])) (2 ^ 32 - 1) ≡ true =
      ground (arith, total, small, length-append bs (0 ∷ [])) in
    let on_content = ap (λ c. padded_data hp s f (memory c)) split in
    rw is_padded (on_content ∙ rw beyond (ground (arith, over)))
