-- ===== src/Http2/Bytes.antt =====
-- Numbers in network byte order: the functions of lib/vend.h that the frame layer calls. A pointer is
-- the list of the bytes from there on; too few of them are an access outside the buffer.
use vtest.Base.{ℕ, ◌+◌, ◌*◌, ◌/◌, ◌%◌, ◌^◌, [], ◌∷◌, Bytes, Outcome, ret, undefined}

unfoldable pub vbe16dec : Bytes → Outcome ℕ
vbe16dec (a ∷ b ∷ rest) = ret (a * 2 ^ 8 + b)
vbe16dec _ = undefined

unfoldable pub vbe32dec : Bytes → Outcome ℕ
vbe32dec (a ∷ b ∷ c ∷ d ∷ rest) = ret (a * 2 ^ 24 + b * 2 ^ 16 + c * 2 ^ 8 + d)
vbe32dec _ = undefined

-- The four bytes that `vbe32enc` writes.
unfoldable pub vbe32enc : ℕ → Bytes
vbe32enc u = (u / 2 ^ 24 % 256) ∷ (u / 2 ^ 16 % 256) ∷ (u / 2 ^ 8 % 256) ∷ (u % 256) ∷ []
