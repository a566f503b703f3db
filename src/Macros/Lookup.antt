-- ===== src/Macros/Lookup.antt =====
-- What the list of macros holds: `macro_def`, `macro_undef` and `macro_isdef` of src/vtc.c as a map
-- from names to macros.
use vtest.Base.{
  List, [], ◌∷◌, Bytes, length, true, false, if◌then◌else◌, Option, none, some, ret, ◌≡◌, ◌≢◌, refl,
  sym, ap, ◌∙◌, ◌<◌, inl, inr, arith, Bool-cases,
}
use vtest.Macros.{
  Macro, by_text, same_text, set_body, macro_def_int, find_macro, remove_macro, bprintf, full_name,
  macro_def, macro_undef, macro_isdef,
}

pub same_text_refl : (a : Bytes) → same_text a a ≡ true
unfolding same_text
same_text_refl [] = refl
same_text_refl (x ∷ a) = ground (arith, same_text_refl a)

pub same_text-eq : (a b : Bytes) → same_text a b ≡ true → a ≡ b
unfolding same_text
same_text-eq [] [] h = refl
same_text-eq [] (y ∷ b) h = cc
same_text-eq (x ∷ a) [] h = cc
same_text-eq (x ∷ a) (y ∷ b) h =
    let heads : x ≡ y = ground arith in
    let tails : same_text a b ≡ true = ground arith in
    ap (λ t. t ∷ a) heads ∙ ap (λ t. y ∷ t) (same_text-eq a b tails)

pub same_text-ne : (a b : Bytes) → a ≢ b → same_text a b ≡ false
same_text-ne a b h = elim (Bool-cases (same_text a b)) [
  | inl same ↦ absurd (h (same_text-eq a b same))
  | inr other ↦ other
]

-- No two macros of one name
abbrev pub Unique : List Macro → Type 0
Unique [] = Unit
Unique (m ∷ ms) = (find_macro ms m.name ≡ none) × Unique ms

abbrev new_macro : Bytes → Bytes → Macro
new_macro name text = record { name = name; val = some text; func = none }

-- The list after the definition of a text
defined : List Macro → Bytes → Bytes → List Macro
defined [] name text = new_macro name text ∷ []
defined (m ∷ ms) name text =
    let later = m ∷ defined ms name text in
    if same_text name m.name then record m { val = some text } ∷ ms else later

macro_def_int-defined :
    (ms : List Macro) (name text : Bytes)
    → length text < 2048
    → macro_def_int ms name (by_text text) ≡ ret (defined ms name text)
unfolding macro_def_int set_body bprintf defined
macro_def_int-defined [] name text h = ground (arith, h)
macro_def_int-defined (m ∷ ms) name text h = ground (arith, h, macro_def_int-defined ms name text h)

find_macro-head :
    (m : Macro) (ms : List Macro) (name : Bytes)
    → same_text name m.name ≡ true
    → find_macro (m ∷ ms) name ≡ some m
unfolding find_macro
find_macro-head m ms name h = rw h refl

find_macro-tail :
    (m : Macro) (ms : List Macro) (name : Bytes)
    → same_text name m.name ≡ false
    → find_macro (m ∷ ms) name ≡ find_macro ms name
unfolding find_macro
find_macro-tail m ms name h = rw h refl

find_macro-nil : (name : Bytes) → find_macro [] name ≡ none
unfolding find_macro
find_macro-nil name = refl

-- The macro of the name has the text now.
pub HasText : Option Macro → Bytes → Type 0
HasText none text = ⊥
HasText (some m) text = m.val ≡ some text

find_macro-defined :
    (ms : List Macro) (name text : Bytes) → HasText (find_macro (defined ms name text) name) text
unfolding defined HasText
find_macro-defined [] name text =
    rw (find_macro-head (new_macro name text) [] name (same_text_refl name)) refl
find_macro-defined (m ∷ ms) name text = elim (Bool-cases (same_text name m.name)) [
  | inl same ↦ rw (same, find_macro-head (record m { val = some text }) ms name same) refl
  | inr other ↦
      rw (other, find_macro-tail m (defined ms name text) name other)
        (find_macro-defined ms name text)
]

find_macro-defined_other :
    (ms : List Macro) (name text key : Bytes)
    → key ≢ name
    → find_macro (defined ms name text) key ≡ find_macro ms key
unfolding defined find_macro
find_macro-defined_other [] name text key h = ground (arith, same_text-ne key name h)
find_macro-defined_other (m ∷ ms) name text key h = elim (Bool-cases (same_text name m.name)) [
  | inl same ↦
      let is_m : name ≡ m.name = same_text-eq name m.name same in
      let not_m : same_text key m.name ≡ false = same_text-ne key m.name (λ e. h (e ∙ sym is_m)) in
      rw (same, not_m) refl
  | inr other ↦ rw other (ground (arith, find_macro-defined_other ms name text key h))
]

ne_of_same_text : (a b : Bytes) → same_text a b ≡ false → b ≢ a
ne_of_same_text a b h e = let h' = rw e at h in let t = same_text_refl a in cc

Unique-defined : (ms : List Macro) (name text : Bytes) → Unique ms → Unique (defined ms name text)
unfolding defined
Unique-defined [] name text unique = (find_macro-nil name, unique)
Unique-defined (m ∷ ms) name text (fresh, unique) = elim (Bool-cases (same_text name m.name)) [
  | inl same ↦ rw same (fresh, unique)
  | inr other ↦
      let kept = find_macro-defined_other ms name text m.name (ne_of_same_text name m.name other) in
      rw other (kept ∙ fresh, Unique-defined ms name text unique)
]

-- `macro_def` returns where the full name and the text fit their buffers. Then the name has the text,
-- every other name has what it had, and no name is there twice if none was.
pub macro_def-find_macro :
    (ms : List Macro) (inst : Option Bytes) (name full text : Bytes)
    → full_name inst name ≡ ret full
    → length text < 2048
    → (ms' : List Macro) × (macro_def ms inst name text ≡ ret ms')
      × HasText (find_macro ms' full) text
      × ((key : Bytes) → key ≢ full → find_macro ms' key ≡ find_macro ms key)
      × (Unique ms → Unique ms')
unfolding macro_def
macro_def-find_macro ms inst name full text named short = (
  defined ms full text,
  rw named (macro_def_int-defined ms full text short),
  find_macro-defined ms full text,
  find_macro-defined_other ms full text,
  Unique-defined ms full text,
)

find_macro-remove_macro :
    (ms : List Macro) (name : Bytes) → Unique ms → find_macro (remove_macro ms name) name ≡ none
unfolding remove_macro
find_macro-remove_macro [] name unique = find_macro-nil name
find_macro-remove_macro (m ∷ ms) name (fresh, unique) = elim (Bool-cases (same_text name m.name)) [
  | inl same ↦ rw (same, same_text-eq name m.name same) fresh
  | inr other ↦
      rw (other, find_macro-tail m (remove_macro ms name) name other)
        (find_macro-remove_macro ms name unique)
]

find_macro-remove_macro_other :
    (ms : List Macro) (name key : Bytes)
    → key ≢ name
    → find_macro (remove_macro ms name) key ≡ find_macro ms key
unfolding remove_macro find_macro
find_macro-remove_macro_other [] name key h = refl
find_macro-remove_macro_other (m ∷ ms) name key h = elim (Bool-cases (same_text name m.name)) [
  | inl same ↦
      let is_m : name ≡ m.name = same_text-eq name m.name same in
      let not_m : same_text key m.name ≡ false = same_text-ne key m.name (λ e. h (e ∙ sym is_m)) in
      rw (same, not_m) refl
  | inr other ↦ rw other (ground (arith, find_macro-remove_macro_other ms name key h))
]

Unique-remove_macro : (ms : List Macro) (name : Bytes) → Unique ms → Unique (remove_macro ms name)
unfolding remove_macro
Unique-remove_macro [] name unique = unique
Unique-remove_macro (m ∷ ms) name (fresh, unique) = elim (Bool-cases (same_text name m.name)) [
  | inl same ↦ rw same unique
  | inr other ↦
      let kept = find_macro-remove_macro_other ms name m.name (ne_of_same_text name m.name other) in
      rw other (kept ∙ fresh, Unique-remove_macro ms name unique)
]

-- `macro_undef` where no name is there twice and the full name fits its buffer: afterwards
-- `macro_isdef` says no, every other name has what it had, and still no name is there twice.
pub macro_undef-macro_isdef :
    (ms : List Macro) (inst : Option Bytes) (name full : Bytes)
    → full_name inst name ≡ ret full
    → Unique ms
    → (ms' : List Macro) × (macro_undef ms inst name ≡ ret ms')
      × (macro_isdef ms' inst name ≡ ret false)
      × ((key : Bytes) → key ≢ full → find_macro ms' key ≡ find_macro ms key)
      × Unique ms'
unfolding macro_undef macro_isdef
macro_undef-macro_isdef ms inst name full named unique = (
  remove_macro ms full,
  rw named refl,
  rw (named, find_macro-remove_macro ms full unique) refl,
  find_macro-remove_macro_other ms full,
  Unique-remove_macro ms full unique,
)
