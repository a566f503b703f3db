-- ===== src/Macros.antt =====
-- The macro facility of src/vtc.c: `macro_def`, `macro_undef`, `macro_isdef`, `macro_cat` and
-- `macro_expand`. Texts are C strings: no byte of theirs is 0. `VAV_ParseTxt` comes from the library
-- of the Varnish project, and is an argument here.
pub mod Lookup
pub mod Expand
use vtest.Base.{
  ℕ, zero, suc, ◌+◌, List, [], ◌∷◌, ◌++◌, Bytes, codes, length, Bool, true, false, not, ◌&&◌, ◌==◌,
  ltb, if◌then◌else◌, Option, none, some, Outcome, ret, aborted, undefined, ◌>>=◌, ◌⊎◌, inl, inr,
}

-- strcmp(a, b) == 0
unfoldable pub same_text : Bytes → Bytes → Bool
same_text [] [] = true
same_text (a ∷ xs) (b ∷ ys) = let rest = same_text xs ys in (a == b) && rest
same_text _ _ = false

-- macro_f: the words of the call, to the text that it returns (`none` for NULL) and its complaint
abbrev pub MacroF : Type 0
MacroF = List Bytes → Option Bytes × Option Bytes

-- struct macro
pub record Macro : Type 0 where
  pub name : Bytes
  pub val : Option Bytes
  pub func : Option MacroF

-- The two ways of a definition: a function, or the text that the format makes.
pub data Body : Type 0 where
  by_func : MacroF → Body
  by_text : Bytes → Body

-- `bprintf` and `vbprintf` into an array: the text must fit with its terminator.
unfoldable pub bprintf : ℕ → Bytes → Outcome Bytes
bprintf size text = if ltb (length text) size then ret text else aborted

-- What `macro_def_int` sets in the macro
set_body : Macro → Body → Outcome Macro
set_body m (by_func f) = ret (record m { func = some f })
set_body m (by_text text) = do buf ← bprintf 2048 text; ret (record m { val = some buf })

-- The list is walked to the macro of the name; without one, a new macro goes to its end.
pub macro_def_int : List Macro → Bytes → Body → Outcome (List Macro)
macro_def_int [] name body = do
  m ← set_body (record { name = name; val = none; func = none }) body
  ret (m ∷ [])
macro_def_int (m ∷ ms) name body =
    let here = (do m' ← set_body m body; ret (m' ∷ ms)) in
    let later = (do ms' ← macro_def_int ms name body; ret (m ∷ ms')) in
    if same_text name m.name then here else later

pub extmacro_def : List Macro → Bytes → Body → Outcome (List Macro)
extmacro_def ms name body = macro_def_int ms name body

-- The name with its instance in front, in `buf1`
unfoldable pub full_name : Option Bytes → Bytes → Outcome Bytes
full_name none name = ret name
full_name (some instance_name) name = bprintf 256 (instance_name ++ codes "_" ++ name)

pub macro_def : List Macro → Option Bytes → Bytes → Bytes → Outcome (List Macro)
macro_def ms inst name text = do full ← full_name inst name; macro_def_int ms full (by_text text)

-- VTAILQ_FOREACH to the first macro of the name
unfoldable pub find_macro : List Macro → Bytes → Option Macro
find_macro [] name = none
find_macro (m ∷ ms) name =
    let later = find_macro ms name in if same_text name m.name then some m else later

-- VTAILQ_REMOVE of the macro that the walk found
pub remove_macro : List Macro → Bytes → List Macro
remove_macro [] name = []
remove_macro (m ∷ ms) name =
    let later = remove_macro ms name in if same_text name m.name then ms else m ∷ later

pub macro_undef : List Macro → Option Bytes → Bytes → Outcome (List Macro)
macro_undef ms inst name = do full ← full_name inst name; ret (remove_macro ms full)

abbrev is_some : Option Macro → Bool
is_some none = false
is_some (some m) = true

pub macro_isdef : List Macro → Option Bytes → Bytes → Outcome Bool
macro_isdef ms inst name = do full ← full_name inst name; ret (is_some (find_macro ms full))

-- `VAV_ParseTxt` with ARGV_COMMA: an error, or the words
abbrev pub ParseTxt : Type 0
ParseTxt = Bytes → Bytes ⊎ List Bytes

-- The call of a macro's function: a text must come back unless there is a complaint.
call_func : Option Bytes × Option Bytes → Outcome (Option Bytes)
call_func (retval, some err) = aborted
call_func (none, none) = aborted
call_func (some text, none) = ret (some text)

-- A macro with a text takes no arguments.
pub alone : Bytes → List Bytes → Outcome (Option Bytes)
alone v [] = ret (some v)
alone v (w ∷ ws) = aborted

-- What the macro that was found returns for the words
pub macro_value : Option Macro → Bytes → List Bytes → Outcome (Option Bytes)
macro_value none word words = ret none
macro_value (some m) word words = elim m.func [
  | some f ↦ elim m.val [ some v ↦ aborted | none ↦ call_func (f (word ∷ words)) ]
  | none ↦ elim m.val [ none ↦ aborted | some v ↦ alone v words ]
]

-- The words of the call are looked up, and the result goes to the buffer.
pub lookup_words : Bool → List Macro → Bytes → Bytes → Bytes ⊎ List Bytes → Outcome Bytes
lookup_words ign ms vsb text (inl err) = aborted
lookup_words ign ms vsb text (inr []) = aborted
lookup_words ign ms vsb text (inr (word ∷ words)) = do
  retval ← macro_value (find_macro ms word) word words
  elim retval [
    | some value ↦ ret (vsb ++ value)
    | none ↦ if ign then ret (vsb ++ codes "${" ++ text ++ codes "}") else aborted
  ]

-- `ign` is `ign_unknown_macro`, and `text` what lies between `b` and `e`.
pub macro_cat : ParseTxt → Bool → List Macro → Bytes → Bytes → Outcome Bytes
macro_cat parse ign ms vsb text = lookup_words ign ms vsb text (parse text)

-- A byte that a search passes over
abbrev pub keep_byte : ℕ → Option (Bytes × Bytes) → Option (Bytes × Bytes)
keep_byte c none = none
keep_byte c (some (before, behind)) = some (c ∷ before, behind)

abbrev pub after_brace : Bytes → Option Bytes
after_brace [] = none
after_brace (c ∷ cs) = if c == 123 then some cs else none

-- strchr(p, '}'): what lies before it, and behind it
pub find_close : Bytes → Option (Bytes × Bytes)
find_close [] = none
find_close (c ∷ cs) =
    let later = keep_byte c (find_close cs) in if c == 125 then some ([], cs) else later

-- strstr(text, "${"): what lies before it, and behind it
pub find_open : Bytes → Option (Bytes × Bytes)
find_open [] = none
find_open (c ∷ cs) =
    let later = keep_byte c (find_open cs) in
    if c == 36 then elim (after_brace cs) [ some rest ↦ some ([], rest) | none ↦ later ] else later

-- The loop of `macro_expand`. Each round takes a macro call off the text, so as many rounds as the
-- text has bytes are enough.
pub expand_loop : ParseTxt → Bool → List Macro → ℕ → Bytes → Bytes → Outcome Bytes
expand_loop parse ign ms rounds vsb [] = ret vsb
expand_loop parse ign ms zero vsb (c ∷ cs) = ret vsb
expand_loop parse ign ms (suc rounds) vsb (c ∷ cs) = elim (find_open (c ∷ cs)) [
  | none ↦ ret (vsb ++ c ∷ cs)
  | some (before, rest) ↦ elim (find_close rest) [
    | none ↦ ret (vsb ++ before ++ c ∷ cs)
    | some (call, rest') ↦ macro_cat parse ign ms (vsb ++ before) call >>= λ vsb'.
        expand_loop parse ign ms rounds vsb' rest'
  ]
]

pub macro_expand : ParseTxt → Bool → List Macro → Bytes → Outcome Bytes
macro_expand parse ign ms text = expand_loop parse ign ms (length text) [] text
