-- ===== src/Http1/Header/Fields.antt =====
-- Looking for the fields of a name: `http_find_header` and `http_count_header` of src/vtc_http.c.
use vtest.Base.{
  ℕ, suc, ◌≡◌, ◌≢◌, refl, ap, ◌∙◌, List, [], ◌∷◌, ◌++◌, Bytes, length, drop, map, false, ◌&&◌, ◌==◌,
  leb, if◌then◌else◌, Option, none, some, arith, All, Bool-cases, inl, inr,
}
use vtest.Http1.Header.{
  vct_issp, peek, skip, lower, behind_name, field_value, http_find_header, http_count_header,
}
use vtest.Macros.{same_text}

-- A field: its name and its value
abbrev pub Field : Type 0
Field = Bytes × Bytes

abbrev pub field_line : Field → Bytes
field_line (name, value) = name ++ 58 ∷ 32 ∷ value

-- No colon
abbrev pub IsNameByte : ℕ → Type 0
IsNameByte c = c ≢ 58

abbrev StartsDark : Bytes → Type 0
StartsDark [] = Unit
StartsDark (c ∷ cs) = vct_issp c ≡ false

abbrev pub IsField : Field → Type 0
IsField (name, value) = All IsNameByte name × StartsDark value

-- The values of the fields of a name, in whatever case it is written
abbrev pub values_of : Bytes → List Field → List Bytes
values_of hdr [] = []
values_of hdr ((name, value) ∷ fs) =
    let others = values_of hdr fs in
    if same_text (map lower hdr) (map lower name) then value ∷ others else others

abbrev pub first_of : List Bytes → Option Bytes
first_of [] = none
first_of (v ∷ vs) = some v

lower_colon : (c : ℕ) → c ≢ 58 → (lower c == 58) ≡ false
lower_colon c h = elim (Bool-cases (leb 65 c && leb c 90)) [
  | inl upper ↦ ground (arith, h, upper)
  | inr other ↦ ground (arith, h, other)
]

skip-dark : (v : Bytes) → StartsDark v → skip vct_issp (32 ∷ v) ≡ v
unfolding skip
skip-dark [] h = refl
skip-dark (c ∷ v) h = rw h refl

-- The value of a line of a field, where the name is the one that is looked for
behind_name-field :
    (hdr name value : Bytes)
    → All IsNameByte hdr
    → All IsNameByte name
    → (elim (behind_name hdr (name ++ 58 ∷ 32 ∷ value)) as (λ _. Option Bytes) [
      | none ↦ none
      | some rest ↦ if peek rest == 58 then some (skip vct_issp (drop 1 rest)) else none
    ])
      ≡ (if same_text (map lower hdr) (map lower name)
          then some (skip vct_issp (32 ∷ value))
          else none)
unfolding behind_name same_text
behind_name-field [] [] value h k = refl
behind_name-field [] (d ∷ name) value h (k, ks) =
    let no_colon : (d == 58) ≡ false = ground (arith, k) in rw no_colon refl
behind_name-field (c ∷ hdr) [] value (h, hs) k = let no_colon = lower_colon c h in rw no_colon refl
behind_name-field (c ∷ hdr) (d ∷ name) value (h, hs) (k, ks) =
    elim (Bool-cases (lower c == lower d)) [
      | inl same ↦ rw same (behind_name-field hdr name value hs ks)
      | inr other ↦ rw other refl
    ]

field_value-field :
    (hdr : Bytes) (f : Field)
    → All IsNameByte hdr
    → IsField f
    → field_value hdr (field_line f)
      ≡ (if same_text (map lower hdr) (map lower f.0) then some f.1 else none)
unfolding field_value
field_value-field hdr (name, value) h (k, dark) =
    behind_name-field hdr name value h k
    ∙ ap (λ v. if same_text (map lower hdr) (map lower name) then some v else none)
        (skip-dark value dark)

-- Fields, each of a name without a colon and of a value that does not begin with white space, written
-- with a colon and a space between them: for a name without a colon, `http_find_header` finds the value
-- of the first field of that name, in whatever case it is written, and NULL if there is none, and
-- `http_count_header` counts the fields of that name.
pub http_find_header-http_count_header :
    (hdr : Bytes) (fs : List Field)
    → All IsNameByte hdr
    → All IsField fs
    → (http_find_header (map field_line fs) hdr ≡ first_of (values_of hdr fs))
      × (http_count_header (map field_line fs) hdr ≡ length (values_of hdr fs))
unfolding http_find_header http_count_header
http_find_header-http_count_header hdr [] h hs = (refl, refl)
http_find_header-http_count_header hdr ((name, value) ∷ fs) h (k, ks) =
    let here = field_value-field hdr (name, value) h k in
    let (finds, counts) = http_find_header-http_count_header hdr fs h ks in
    elim (Bool-cases (same_text (map lower hdr) (map lower name))) [
      | inl same ↦
          let hit = here ∙ ap (λ b. if b then some value else none) same in
          (rw (http_find_header, hit, same) refl, rw (http_count_header, hit, same) (ap suc counts))
      | inr other ↦
          let miss = here ∙ ap (λ b. if b then some value else none) other in
          (rw (http_find_header, miss, other) finds, rw (http_count_header, miss, other) counts)
    ]
