-- ===== src/Base/Texts.antt =====
-- Texts as C strings: the bytes up to a terminator 0.
use Prim.Native.Nat.{ℕ}
use mathlib.Core.List.{List, [], ◌∷◌}
use vtest.Base.Tests.{◌==◌, if◌then◌else◌}

-- The text that a pointer to the bytes gives
unfoldable pub c_string : List ℕ → List ℕ
c_string [] = []
c_string (c ∷ cs) = let more = c ∷ c_string cs in if c == 0 then [] else more
