-- ===== src/Http2/Frame.antt =====
-- Frames and their headers: `struct frame`, `readFrameHeader` and `writeFrameHeader`.
use vtest.Base.{
  ℕ, ◌+◌, ◌*◌, ◌/◌, ◌%◌, ◌^◌, ◌<◌, ◌≡◌, ◌∷◌, Bytes, List, Option, Outcome, ret, undefined, ◌>>=◌,
  arith,
}
use vtest.Base.Int.{ℤ}
use vtest.Http2.Bytes.{vbe32dec, vbe32enc}

-- The member of the union `md` that was written last. A value that is NAN is `none`.
pub data Meta : Type 0 where
  unset : Meta
  prio : (stream : ℕ) → (exclusive weight : ℕ) → Meta
  rst_err : ℕ → Meta
  settings : List (Option ℤ) → Meta
  ping : Bytes → ℕ → Meta
  goaway : ℕ → ℕ → Option Bytes → Meta
  winup_size : ℕ → Meta
  promised : ℕ → Meta
  padded : ℕ → Meta

-- struct frame; `content` is `data`, empty for NULL.
pub record Frame : Type 0 where
  pub size : ℕ
  pub stid : ℕ
  pub type : ℕ
  pub flags : ℕ
  pub content : Bytes
  pub md : Meta

-- `readFrameHeader` on the bytes of `buf`
unfoldable pub read_frame_header : Frame → Bytes → Outcome Frame
read_frame_header f (a ∷ b ∷ c ∷ ty ∷ fl ∷ rest) = do
  stid ← vbe32dec rest
  ret (record f { size = a * 2 ^ 16 + b * 2 ^ 8 + c; type = ty; flags = fl; stid = stid })
read_frame_header f _ = undefined

-- `writeFrameHeader`: the nine bytes that it writes
unfoldable pub write_frame_header : Frame → Bytes
write_frame_header f =
    (f.size / 2 ^ 16 % 256)
    ∷ (f.size / 2 ^ 8 % 256)
    ∷ (f.size % 256)
    ∷ (f.type % 256)
    ∷ (f.flags % 256)
    ∷ vbe32enc f.stid

-- `readFrameHeader` gets back from what `writeFrameHeader` wrote the type, the flags and the stream,
-- where they fit their fields, and the size without its bits from the 24th on; it leaves the other
-- fields of the frame that it fills in alone.
pub read_frame_header-write_frame_header :
    (f g : Frame)
    → f.type < 256
    → f.flags < 256
    → f.stid < 2 ^ 32
    → read_frame_header g (write_frame_header f)
      ≡ ret (record g { size = f.size % 2 ^ 24; type = f.type; flags = f.flags; stid = f.stid })
unfolding read_frame_header write_frame_header vbe32dec vbe32enc
read_frame_header-write_frame_header f g a b c = ground arith
