-- ===== src/Http2/Commands/Bodies/Received.antt =====
-- What `parse_data` makes of the frames that `cmd_txdata` sends (src/vtc_http2.c).
use vtest.Base.{
  ℕ, ◌+◌, ◌^◌, ◌<◌, ◌≤◌, ◌≡◌, refl, ap, [], ◌∷◌, ◌++◌, Bytes, codes, length, length-append, false,
  ltb, ret, arith,
}
use vtest.Base.Int.{pos, ◌-ℤ◌}
use vtest.Http2.Frame.{Frame, Meta, write_frame_header}
use vtest.Http2.State.{Http, Stream}
use vtest.Http2.Write.{write_frame_data}
use vtest.Http2.Payload.{parse_data}
use vtest.Http2.Payload.Data.{delivered, parse_data-padded}
use vtest.Http2.Commands.{init_frame}
use vtest.Http2.Commands.Bodies.{data_args, send_data, cmd_txdata}
use vtest.Macros.{same_text}

-- What a sender of so many bytes of DATA keeps of its windows
abbrev pub spent : Http → Stream → ℕ → Http × Stream
spent hp s n = (
  record hp { h2_win_peer = hp.h2_win_peer -ℤ pos n },
  record s { win_peer = s.win_peer -ℤ pos n },
)

module _ (strtoul0 : Bytes → ℕ × Bytes) where
  -- A text that is not empty with padding of up to 255 bytes, shorter than 2 ^ 24 with the padding:
  -- cmd_txdata writes the header of a DATA frame that ends the stream, and its content, and charges both
  -- windows of the peer for the whole of it; parse_data of a frame with these flags and this content
  -- delivers the text and charges both windows for the text alone, that of stream 0 excepted.
  pub cmd_txdata-parse_data :
      (hp rhp : Http) (s rs : Stream) (f : Frame) (b : ℕ) (bs pad : Bytes)
      → length pad ≤ 255
      → f.flags ≡ 9
      → f.content ≡ length pad ∷ (b ∷ bs) ++ pad
      → f.size ≡ length f.content
      → f.size < 2 ^ 24
      → (cmd_txdata strtoul0 hp s (codes "-data" ∷ (b ∷ bs) ∷ codes "-pad" ∷ pad ∷ [])
          ≡ ret (
            (spent hp s f.size).0,
            (spent hp s f.size).1,
            write_frame_header (init_frame 0 f.size s.id 9 []) ++ f.content,
          ))
        × (parse_data rhp rs f
            ≡ ret (delivered rhp rs (record f { md = Meta.padded (length pad) }) (b ∷ bs)))
  unfolding cmd_txdata data_args send_data same_text write_frame_header
  cmd_txdata-parse_data hp rhp s rs f b bs pad short flagged is sized small =
      let total : f.size ≡ 1 + length (b ∷ bs) + length pad =
        omega (arith, ap length is, length-append bs pad) in
      let fits : ltb 255 (length pad) ≡ false = ground arith in
      let g =
        init_frame 0 (1 + length (b ∷ bs) + length pad) s.id 9 (length pad ∷ (b ∷ bs) ++ pad) in
      let g_sized : g.size ≡ length g.content = omega (arith, length-append bs pad) in
      (
        rw (fits, write_frame_data hp s g refl g_sized) (rw (total, is)),
        parse_data-padded rhp rs f b bs pad (rw flagged) is sized (omega arith),
      )
