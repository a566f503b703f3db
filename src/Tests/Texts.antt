-- ===== src/Tests/Texts.antt =====
-- Macros at concrete texts.
use vtest.Base.{◌≡◌, refl, List, [], ◌∷◌, codes, false, some, ret, arith, inr}
use vtest.Macros.Expand.{Piece, plain, call, text_macro, macro_expand-written}
use vtest.Macros.Lookup.{Unique}
use vtest.Macros.{Macro, ParseTxt, find_macro, same_text, full_name, bprintf, macro_expand}

-- Every text is one word.
abbrev one_word : ParseTxt
one_word text = inr (text ∷ [])

abbrev macros : List Macro
macros =
    text_macro (codes "s1_addr") (codes "127.0.0.1") ∷ text_macro (codes "date") (codes "now") ∷ []

macros-Unique : Unique macros
unfolding find_macro same_text
macros-Unique = (refl, (refl, tt))

full_name-s1_addr : full_name (some (codes "s1")) (codes "addr") ≡ ret (codes "s1_addr")
unfolding full_name bprintf
full_name-s1_addr = refl

find_macro-date : find_macro macros (codes "date") ≡ some (text_macro (codes "date") (codes "now"))
unfolding find_macro same_text
find_macro-date = refl

abbrev pieces : List Piece
pieces = plain (codes "at ") ∷ call (codes "date") (codes "now") ∷ []

macro_expand-written_example :
    macro_expand one_word false macros (codes "at ${date}") ≡ ret (codes "at now")
macro_expand-written_example = macro_expand-written one_word false macros pieces (
  (omega arith, (omega arith, (omega arith, tt))),
  (((omega arith, (omega arith, (omega arith, (omega arith, tt)))), refl, find_macro-date), tt),
)
