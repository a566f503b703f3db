-- ===== src/Http2/Write.antt =====
-- Sending a frame: `write_frame` of src/vtc_http2.c, where `write` takes all the bytes.
use vtest.Base.{
  ℕ, zero, suc, ◌≤◌, true, false, ◌^◌, ◌<◌, ◌≡◌, refl, ◌∙◌, ap, [], ◌∷◌, ◌++◌, append-nil, Bytes,
  length, take, take_all, drop, ◌==◌, ltb, if◌then◌else◌, Outcome, ret, aborted, undefined, arith,
}
use vtest.Base.Int.{ℤ, pos, ◌+ℤ◌, ◌-ℤ◌, int_laws}
use vtest.Http2.Bytes.{vbe32dec, vbe32enc}
use vtest.Http2.Frame.{Frame, read_frame_header, write_frame_header}
use vtest.Http2.State.{Http, Stream, is_null}

-- What the windows of the peer shrink by: the size of a DATA frame
abbrev pub charge : Frame → ℕ
charge f = if f.type == 0 then f.size else 0

-- The part of `write_frame` behind the header
pub write_content : Http → Stream → Bytes → Bytes → ℕ → Outcome (Http × Stream × Bytes)
write_content hp s hdr content n =
    if n == 0
    then ret (hp, s, hdr)
    else if is_null content
    then aborted
    else if ltb (length content) n
    then undefined
    else ret (hp, s, hdr ++ take n content)

-- The connection and the stream, and the bytes that are written.
pub write_frame : Http → Stream → Frame → Outcome (Http × Stream × Bytes)
write_frame hp s f =
    let hdr = write_frame_header f in
    let s' = if f.type == 0 then record s { win_peer = s.win_peer -ℤ pos f.size } else s in
    let hp' =
      if f.type == 0 then record hp { h2_win_peer = hp.h2_win_peer -ℤ pos f.size } else hp in
    write_content hp' s' hdr f.content f.size

write_content_all :
    (hp : Http) (s : Stream) (hdr content : Bytes) (n : ℕ)
    → n ≡ length content
    → write_content hp s hdr content n ≡ ret (hp, s, hdr ++ content)
unfolding write_content
write_content_all hp s hdr [] n e = ground (arith, e, append-nil hdr)
write_content_all hp s hdr (c ∷ content) n e =
    let all : take n (c ∷ content) ≡ c ∷ content =
      ap (λ k. take k (c ∷ content)) e ∙ take_all (c ∷ content) in
    ground (arith, e, all)

write_content_front :
    (hp : Http) (s : Stream) (hdr content : Bytes) (n : ℕ)
    → n ≤ length content
    → write_content hp s hdr content n ≡ ret (hp, s, hdr ++ take n content)
unfolding write_content
write_content_front hp s hdr content zero h = rw append-nil
write_content_front hp s hdr [] (suc n) h = absurd (omega arith)
write_content_front hp s hdr (c ∷ content) (suc n) h =
    let room : ltb (length (c ∷ content)) (suc n) ≡ false = ground arith in
    let some_left : (suc n == 0) ≡ false = ground arith in rw (some_left, room)

-- A frame that is not DATA, with its data or the front of it
pub write_frame_other :
    (hp : Http) (s : Stream) (f : Frame)
    → (f.type == 0) ≡ false
    → f.size ≤ length f.content
    → write_frame hp s f ≡ ret (hp, s, write_frame_header f ++ take f.size f.content)
unfolding write_frame
write_frame_other hp s f other h =
    rw other (write_content_front hp s (write_frame_header f) f.content f.size h)

-- A DATA frame with its data
pub write_frame_data :
    (hp : Http) (s : Stream) (f : Frame)
    → (f.type == 0) ≡ true
    → f.size ≡ length f.content
    → write_frame hp s f
      ≡ ret (
        record hp { h2_win_peer = hp.h2_win_peer -ℤ pos f.size },
        record s { win_peer = s.win_peer -ℤ pos f.size },
        write_frame_header f ++ f.content,
      )
unfolding write_frame
write_frame_data hp s f is_data h = rw is_data (
    write_content_all (record hp { h2_win_peer = hp.h2_win_peer -ℤ pos f.size })
      (record s { win_peer = s.win_peer -ℤ pos f.size }) (write_frame_header f) f.content f.size h)

-- A frame whose fields fit, with its content: what `write_frame` writes begins with a header that
-- `readFrameHeader` gets all of it back from, and goes on with the content; the windows of the peer
-- shrink by the size of a DATA frame, and by nothing for the other types.
pub write_frame-read_frame_header :
    (hp : Http) (s : Stream) (f g : Frame)
    → f.type < 256
    → f.flags < 256
    → f.stid < 2 ^ 32
    → f.size < 2 ^ 24
    → f.size ≡ length f.content
    → (hp' : Http) × (s' : Stream) × (bytes : Bytes) × (write_frame hp s f ≡ ret (hp', s', bytes))
      × (read_frame_header g bytes
          ≡ ret (record g { size = f.size; type = f.type; flags = f.flags; stid = f.stid }))
      × (drop 9 bytes ≡ f.content)
      × (s'.win_peer +ℤ pos (charge f) ≡ s.win_peer)
      × (hp'.h2_win_peer +ℤ pos (charge f) ≡ hp.h2_win_peer)
unfolding write_frame read_frame_header write_frame_header vbe32enc vbe32dec
write_frame-read_frame_header hp s f g ty fl st small sized =
    let data_frame = f.type == 0 in
    let s' = if data_frame then record s { win_peer = s.win_peer -ℤ pos f.size } else s in
    let hp' = if data_frame then record hp { h2_win_peer = hp.h2_win_peer -ℤ pos f.size } else hp in
    let charged : (w : ℤ) → w -ℤ pos f.size +ℤ pos f.size ≡ w = λ w. omega int_laws in
    let kept : (w : ℤ) → w +ℤ pos 0 ≡ w = λ w. omega int_laws in
    (
      hp',
      s',
      write_frame_header f ++ f.content,
      write_content_all hp' s' (write_frame_header f) f.content f.size sized,
      ground arith,
      refl,
      ground (arith, charged s.win_peer, kept s.win_peer),
      ground (arith, charged hp.h2_win_peer, kept hp.h2_win_peer),
    )
