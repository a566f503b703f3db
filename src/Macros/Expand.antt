-- ===== src/Macros/Expand.antt =====
-- What `macro_expand` of src/vtc.c makes of a text with macro calls in it.
use vtest.Base.{
  ℕ, zero, suc, ◌+◌, ◌≤◌, List, [], ◌∷◌, ◌++◌, append_assoc, append-nil, Bytes, length,
  length-append, Bool, none, some, ret, ◌≡◌, ◌≢◌, refl, sym, ap, ◌∙◌, inr, arith, All,
}
use vtest.Macros.{
  Macro, ParseTxt, find_macro, macro_cat, lookup_words, macro_value, alone, find_open, find_close,
  expand_loop, macro_expand,
}

-- A piece of a template: plain text, or a macro call and the text that it stands for
pub data Piece : Type 0 where
  plain : Bytes → Piece
  call : (text value : Bytes) → Piece

-- The text of the template, and what it expands to
abbrev pub written : List Piece → Bytes
written [] = []
written (plain bs ∷ ps) = bs ++ written ps
written (call text value ∷ ps) = 36 ∷ 123 ∷ (text ++ 125 ∷ written ps)

abbrev pub expanded : List Piece → Bytes
expanded [] = []
expanded (plain bs ∷ ps) = bs ++ expanded ps
expanded (call text value ∷ ps) = value ++ expanded ps

-- A byte other than the dollar sign, and other than the closing brace
abbrev NotDollar : ℕ → Type 0
NotDollar c = c ≢ 36

abbrev NotClose : ℕ → Type 0
NotClose c = c ≢ 125

abbrev pub text_macro : Bytes → Bytes → Macro
text_macro name value = record { name = name; val = some value; func = none }

-- Plain text has no dollar sign. A call has no closing brace; it is one word, the name of a macro with
-- the value.
abbrev pub IsPiece : ParseTxt → List Macro → Piece → Type 0
IsPiece parse ms (plain bs) = All NotDollar bs
IsPiece parse ms (call text value) =
    All NotClose text
    × (parse text ≡ inr (text ∷ []))
    × (find_macro ms text ≡ some (text_macro text value))

find_close-text :
    (text rest : Bytes) → All NotClose text → find_close (text ++ 125 ∷ rest) ≡ some (text, rest)
unfolding find_close
find_close-text [] rest h = refl
find_close-text (c ∷ text) rest (h, hs) = ground (arith, h, find_close-text text rest hs)

find_close-none : (text : Bytes) → All NotClose text → find_close text ≡ none
unfolding find_close
find_close-none [] h = refl
find_close-none (c ∷ text) (h, hs) = ground (arith, h, find_close-none text hs)

find_open-plain :
    (bs rest : Bytes) → All NotDollar bs → find_open (bs ++ 36 ∷ 123 ∷ rest) ≡ some (bs, rest)
unfolding find_open
find_open-plain [] rest h = refl
find_open-plain (c ∷ bs) rest (h, hs) = ground (arith, h, find_open-plain bs rest hs)

find_open-none : (bs : Bytes) → All NotDollar bs → find_open bs ≡ none
unfolding find_open
find_open-none [] h = refl
find_open-none (c ∷ bs) (h, hs) = ground (arith, h, find_open-none bs hs)

module _ (parse : ParseTxt) (ign : Bool) (ms : List Macro) where
  macro_cat-value :
      (vsb text value : Bytes)
      → parse text ≡ inr (text ∷ [])
      → find_macro ms text ≡ some (text_macro text value)
      → macro_cat parse ign ms vsb text ≡ ret (vsb ++ value)
  unfolding macro_cat lookup_words macro_value alone
  macro_cat-value vsb text value one found = rw (one, found) refl

  loop_plain :
      (rounds : ℕ) (vsb bs : Bytes)
      → All NotDollar bs
      → length bs ≤ rounds
      → expand_loop parse ign ms rounds vsb bs ≡ ret (vsb ++ bs)
  unfolding expand_loop
  loop_plain rounds vsb [] h k = ap ret (sym (append-nil vsb))
  loop_plain zero vsb (c ∷ bs) h k = absurd (omega arith)
  loop_plain (suc rounds) vsb (c ∷ bs) h k = rw (expand_loop, find_open-none (c ∷ bs) h) refl

  loop_call :
      (rounds : ℕ) (vsb bs text rest v : Bytes)
      → All NotDollar bs
      → All NotClose text
      → macro_cat parse ign ms (vsb ++ bs) text ≡ ret v
      → expand_loop parse ign ms (suc rounds) vsb (bs ++ 36 ∷ 123 ∷ (text ++ 125 ∷ rest))
        ≡ expand_loop parse ign ms rounds v rest
  unfolding expand_loop
  loop_call rounds vsb [] text rest v h k done =
      rw (expand_loop, find_open-plain [] (text ++ 125 ∷ rest) h, find_close-text text rest k, done)
        refl
  loop_call rounds vsb (c ∷ bs) text rest v h k done =
      rw
        (
          expand_loop,
          find_open-plain (c ∷ bs) (text ++ 125 ∷ rest) h,
          find_close-text text rest k,
          done,
        )
        refl

  loop_open :
      (rounds : ℕ) (vsb bs text : Bytes)
      → All NotDollar bs
      → All NotClose text
      → expand_loop parse ign ms (suc rounds) vsb (bs ++ 36 ∷ 123 ∷ text)
        ≡ ret (vsb ++ bs ++ (bs ++ 36 ∷ 123 ∷ text))
  unfolding expand_loop
  loop_open rounds vsb [] text h k =
      rw (expand_loop, find_open-plain [] text h, find_close-none text k) refl
  loop_open rounds vsb (c ∷ bs) text h k =
      rw (expand_loop, find_open-plain (c ∷ bs) text h, find_close-none text k) refl

  All-append : (xs ys : Bytes) → All NotDollar xs → All NotDollar ys → All NotDollar (xs ++ ys)
  All-append [] ys h k = k
  All-append (x ∷ xs) ys (h, hs) k = (h, All-append xs ys hs k)

  expand_loop-expanded :
      (ps : List Piece) (rounds : ℕ) (vsb bs : Bytes)
      → All (IsPiece parse ms) ps
      → All NotDollar bs
      → length (bs ++ written ps) ≤ rounds
      → expand_loop parse ign ms rounds vsb (bs ++ written ps) ≡ ret (vsb ++ bs ++ expanded ps)
  expand_loop-expanded [] rounds vsb bs every h k =
      let nil = append-nil bs in
      let nil' = append-nil (vsb ++ bs) in
      rw (nil, nil') (loop_plain rounds vsb bs h (omega (arith, k, length-append bs [])))
  expand_loop-expanded (plain cs ∷ ps) rounds vsb bs (one, every) h k =
      let joined = append_assoc bs cs (written ps) in
      let joined' = append_assoc (vsb ++ bs) cs (expanded ps) in
      let joined'' = append_assoc vsb bs cs in
      let rest =
        expand_loop-expanded ps rounds vsb (bs ++ cs) every (All-append bs cs h one)
          (rw joined k) in
      rw (← joined, ← joined', joined'') rest
  expand_loop-expanded (call text value ∷ ps) zero vsb bs ((close, word, found), every) h k =
      absurd (omega (arith, k, length-append bs (36 ∷ 123 ∷ (text ++ 125 ∷ written ps))))
  expand_loop-expanded (call text value ∷ ps) (suc rounds) vsb bs ((close, word, found), every) h
        k =
      let v = vsb ++ bs ++ value in
      let within : length (written ps) ≤ rounds = omega (
        arith,
        k,
        length-append bs (36 ∷ 123 ∷ (text ++ 125 ∷ written ps)),
        length-append text (125 ∷ written ps),
      ) in
      let tail : v ++ [] ++ expanded ps ≡ vsb ++ bs ++ (value ++ expanded ps) =
        ap (λ t. t ++ expanded ps) (append-nil v) ∙ append_assoc (vsb ++ bs) value (expanded ps) in
      let now = macro_cat-value (vsb ++ bs) text value word found in
      let rest = expand_loop-expanded ps rounds v [] every tt within in
      loop_call rounds vsb bs text (written ps) v h close now ∙ rest ∙ ap ret tail

-- A template of plain text and calls of macros with a text, whatever their order: `macro_expand`
-- returns the text with each call replaced by the macro's value.
pub macro_expand-written :
    (parse : ParseTxt) (ign : Bool) (ms : List Macro) (ps : List Piece)
    → All (IsPiece parse ms) ps
    → macro_expand parse ign ms (written ps) ≡ ret (expanded ps)
unfolding macro_expand
macro_expand-written parse ign ms ps every =
    expand_loop-expanded parse ign ms ps (length (written ps)) [] [] every tt (omega arith)

-- A call that is not closed: the text before it goes into the result, and then the whole text, so
-- that it stands there twice.
pub macro_expand_unclosed :
    (parse : ParseTxt) (ign : Bool) (ms : List Macro) (bs text : Bytes)
    → All NotDollar bs
    → All NotClose text
    → macro_expand parse ign ms (bs ++ 36 ∷ 123 ∷ text) ≡ ret (bs ++ (bs ++ 36 ∷ 123 ∷ text))
unfolding macro_expand
macro_expand_unclosed parse ign ms bs text h k =
    let some_bytes : length (bs ++ 36 ∷ 123 ∷ text) ≡ suc (length bs + suc (length text)) =
      omega (arith, length-append bs (36 ∷ 123 ∷ text)) in
    rw some_bytes (loop_open parse ign ms (length bs + suc (length text)) [] bs text h k)
