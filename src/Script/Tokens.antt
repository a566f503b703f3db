-- ===== src/Script/Tokens.antt =====
-- The tokens of a line, as a script writes them and as `parse_string` of src/vtc.c reads them.
use vtest.Base.{
  ℕ, zero, suc, ◌+◌, ◌-◌, ◌*◌, ◌<◌, ◌≡◌, ◌≢◌, refl, sym, ap, ◌∙◌, List, [], ◌∷◌, ◌++◌, append_assoc,
  append-nil, Bytes, length, map, length-append, true, false, ◌==◌, ltb, if◌then◌else◌, Option,
  none, some, ret, arith, All, Bool-cases, inl, inr,
}
use vtest.Script.{
  BackSlash, is_space, newline, taken, read_quoted, read_braces, read_word, read_token, max_tokens,
  read_line,
}

-- A word, a text in quotes, or a text in braces
pub data Token : Type 0 where
  word quoted block : Bytes → Token

abbrev pub text : Token → Bytes
text (word bs) = bs
text (quoted bs) = bs
text (block bs) = bs

abbrev pub written : Token → Bytes
written (word bs) = bs
written (quoted bs) = 34 ∷ (bs ++ 34 ∷ [])
written (block bs) = 123 ∷ (bs ++ 125 ∷ [])

-- A line of tokens, with its newline
abbrev pub line : List Token → Bytes
line [] = newline ∷ []
line (t ∷ ts) = written t ++ 32 ∷ line ts

-- How many braces are open behind a text with so many open before it; none if it closes more.
abbrev pub open_braces : ℕ → Bytes → Option ℕ
open_braces n [] = some n
open_braces n (c ∷ cs) =
    let closed = elim n as (λ _. Option ℕ) [ zero ↦ none | suc k ↦ open_braces k cs ] in
    let opened = open_braces (suc n) cs in
    let plain = open_braces n cs in if c == 123 then opened else if c == 125 then closed else plain

abbrev NotSpace : ℕ → Type 0
NotSpace c = is_space c ≡ false

-- A byte that stands for itself between quotes
abbrev IsPlain : ℕ → Type 0
IsPlain c = (c ≢ 34) × (c ≢ 92) × (c ≢ newline)

-- The first byte of a word says that it is one.
abbrev StartsWord : Bytes → Type 0
StartsWord [] = ⊥
StartsWord (c ∷ cs) = (c ≢ 34) × (c ≢ 123) × (c ≢ 92)

abbrev pub IsToken : Token → Type 0
IsToken (word bs) = StartsWord bs × All NotSpace bs
IsToken (quoted bs) = All IsPlain bs
IsToken (block bs) = open_braces 0 bs ≡ some 0

read_word-append :
    (token bs rest : Bytes)
    → All NotSpace bs
    → read_word token (bs ++ 32 ∷ rest) ≡ taken (token ++ bs) false (32 ∷ rest)
unfolding read_word
read_word-append token [] rest h = ap (λ t. taken t false (32 ∷ rest)) (sym (append-nil token))
read_word-append token (c ∷ bs) rest (h, hs) = rw h (
    read_word-append (token ++ c ∷ []) bs rest hs
    ∙ ap (λ t. taken t false (32 ∷ rest)) (append_assoc token (c ∷ []) bs))

read_quoted-append :
    (esc : BackSlash) (token bs rest : Bytes)
    → All IsPlain bs
    → read_quoted esc token 0 (bs ++ 34 ∷ rest) ≡ ret (taken (token ++ bs) false rest)
unfolding read_quoted
read_quoted-append esc token [] rest h = ap (λ t. ret (taken t false rest)) (sym (append-nil token))
read_quoted-append esc token (c ∷ bs) rest ((a, b, d), hs) =
    let no_quote : (c == 34) ≡ false = ground (arith, a) in
    let no_escape : (c == 92) ≡ false = ground (arith, b) in
    let no_newline : (c == newline) ≡ false = ground (arith, d) in
    rw (no_quote, no_escape, no_newline)
      (read_quoted-append esc (token ++ c ∷ []) bs rest hs
        ∙ ap (λ t. ret (taken t false rest)) (append_assoc token (c ∷ []) bs))

read_braces-append :
    (n m : ℕ) (token bs rest : Bytes)
    → open_braces n bs ≡ some m
    → read_braces (suc n) token (bs ++ rest) ≡ read_braces (suc m) (token ++ bs) rest
unfolding read_braces
read_braces-append n m token [] rest h =
    let same : n ≡ m = cc in rw (append-nil token) (ap (λ k. read_braces (suc k) token rest) same)
read_braces-append zero m token (c ∷ bs) rest h =
    let joined : token ++ c ∷ bs ≡ (token ++ c ∷ []) ++ bs = sym (append_assoc token (c ∷ []) bs) in
    elim (Bool-cases (c == 123)) [
      | inl opens ↦
          rw (opens, joined) (read_braces-append 1 m (token ++ c ∷ []) bs rest (rw opens at h))
      | inr other ↦ elim (Bool-cases (c == 125)) [
        | inl closes ↦ let none_left = rw (other, closes) at h in cc
        | inr plain ↦
            rw (other, plain, joined)
              (read_braces-append 0 m (token ++ c ∷ []) bs rest (rw (other, plain) at h))
      ]
    ]
read_braces-append (suc n) m token (c ∷ bs) rest h =
    let joined : token ++ c ∷ bs ≡ (token ++ c ∷ []) ++ bs = sym (append_assoc token (c ∷ []) bs) in
    elim (Bool-cases (c == 123)) [
      | inl opens ↦
          rw (opens, joined)
            (read_braces-append (suc (suc n)) m (token ++ c ∷ []) bs rest (rw opens at h))
      | inr other ↦ elim (Bool-cases (c == 125)) [
        | inl closes ↦
            let more : (suc (suc n) == 1) ≡ false = ground arith in
            let one_less : suc (suc n) - 1 ≡ suc n = omega arith in
            rw (other, closes, more, one_less, joined)
              (read_braces-append n m (token ++ c ∷ []) bs rest (rw (other, closes) at h))
        | inr plain ↦
            rw (other, plain, joined)
              (read_braces-append (suc n) m (token ++ c ∷ []) bs rest (rw (other, plain) at h))
      ]
    ]

read_braces-close :
    (token rest : Bytes) → read_braces 1 token (125 ∷ rest) ≡ ret (taken token false rest)
unfolding read_braces
read_braces-close token rest = refl

absurd_space : (c : ℕ) → NotSpace c → c ≢ newline
absurd_space c h e = let h' = rw e at h in cc

-- The token is read whole, up to the space behind it.
read_token-written :
    (esc : BackSlash) (t : Token) (rest : Bytes)
    → IsToken t
    → (c : ℕ) × (cs : Bytes) × (written t ++ 32 ∷ rest ≡ c ∷ cs)
      × (c ≢ newline)
      × (is_space c ≡ false)
      × ((c ≡ 92) → ⊥)
      × (read_token esc false c cs ≡ ret (taken (text t) false (32 ∷ rest)))
unfolding read_token
read_token-written esc (word []) rest (start, h) = elim start [ ]
read_token-written esc (word (c ∷ bs)) rest ((a, b, d), (h, hs)) =
    let no_quote : (c == 34) ≡ false = ground (arith, a) in
    let no_brace : (c == 123) ≡ false = ground (arith, b) in
    (
      c,
      bs ++ 32 ∷ rest,
      refl,
      λ e. absurd_space c h e,
      h,
      d,
      rw (no_quote, no_brace) (ap ret (read_word-append [] (c ∷ bs) rest (h, hs))),
    )
read_token-written esc (quoted bs) rest h = (
  34,
  (bs ++ 34 ∷ []) ++ 32 ∷ rest,
  refl,
  omega arith,
  refl,
  omega arith,
  rw (append_assoc bs (34 ∷ []) (32 ∷ rest)) (read_quoted-append esc [] bs (32 ∷ rest) h),
)
read_token-written esc (block bs) rest h = (
  123,
  (bs ++ 125 ∷ []) ++ 32 ∷ rest,
  refl,
  omega arith,
  refl,
  omega arith,
  rw (append_assoc bs (125 ∷ []) (32 ∷ rest))
      (read_braces-append 0 0 [] bs (125 ∷ 32 ∷ rest) h ∙ read_braces-close bs (32 ∷ rest)),
)

-- The two rounds for a token and the space behind it
read_line-token :
    (esc : BackSlash) (t : Token) (rounds : ℕ) (tokens : List Bytes) (rest : Bytes)
    → IsToken t
    → suc (length tokens) < max_tokens
    → read_line esc (suc (suc rounds)) false tokens (written t ++ 32 ∷ rest)
      ≡ read_line esc rounds false (tokens ++ text t ∷ []) rest
unfolding read_line
read_line-token esc t rounds tokens rest h room =
    let (c, cs, split, no_line, no_space, no_escape, token) = read_token-written esc t rest h in
    let fits : ltb (length tokens) max_tokens ≡ true = ground (arith, room) in
    let counted : length (tokens ++ text t ∷ []) ≡ suc (length tokens) =
      omega (arith, length-append tokens (text t ∷ [])) in
    let fits' : ltb (length (tokens ++ text t ∷ [])) max_tokens ≡ true =
      ground (arith, room, counted) in
    let line' : (c == newline) ≡ false = ground (arith, no_line) in
    let escape' : (c == 92) ≡ false = ground (arith, no_escape) in
    rw split (rw (fits, line', no_space, escape', token, fits') refl)

read_line-newline :
    (esc : BackSlash) (rounds : ℕ) (tokens : List Bytes) (rest : Bytes)
    → length tokens < max_tokens
    → read_line esc (suc rounds) false tokens (newline ∷ rest) ≡ ret (tokens, newline ∷ rest)
unfolding read_line
read_line-newline esc rounds tokens rest room =
    let fits : ltb (length tokens) max_tokens ≡ true = ground (arith, room) in rw fits refl

read_line-from :
    (esc : BackSlash) (ts : List Token) (rounds : ℕ) (tokens : List Bytes) (rest : Bytes)
    → All IsToken ts
    → length tokens + length ts < max_tokens
    → 2 * length ts < rounds
    → read_line esc rounds false tokens (line ts ++ rest)
      ≡ ret (tokens ++ map text ts, newline ∷ rest)
read_line-from esc [] zero tokens rest h room enough = absurd (omega arith)
read_line-from esc [] (suc rounds) tokens rest h room enough =
    read_line-newline esc rounds tokens rest (omega arith)
    ∙ ap (λ t. ret (t, newline ∷ rest)) (sym (append-nil tokens))
read_line-from esc (t ∷ ts) zero tokens rest h room enough = absurd (omega arith)
read_line-from esc (t ∷ ts) (suc zero) tokens rest h room enough = absurd (omega arith)
read_line-from esc (t ∷ ts) (suc (suc rounds)) tokens rest (h, hs) room enough =
    let split : (written t ++ 32 ∷ line ts) ++ rest ≡ written t ++ 32 ∷ (line ts ++ rest) =
      append_assoc (written t) (32 ∷ line ts) rest in
    let first = read_line-token esc t rounds tokens (line ts ++ rest) h (omega arith) in
    let counted = length-append tokens (text t ∷ []) in
    let others =
      read_line-from esc ts rounds (tokens ++ text t ∷ []) rest hs (omega (arith, counted))
        (omega arith) in
    rw split (
      first
      ∙ others
      ∙ ap (λ l. ret (l, newline ∷ rest)) (append_assoc tokens (text t ∷ []) (map text ts)))

length-written : (t : Token) → IsToken t → 0 < length (written t)
length-written (word []) (start, h) = elim start [ ]
length-written (word (c ∷ bs)) h = omega arith
length-written (quoted bs) h = omega arith
length-written (block bs) h = omega arith

pub length-line : (ts : List Token) → All IsToken ts → 2 * length ts < length (line ts)
length-line [] h = omega arith
length-line (t ∷ ts) (h, hs) =
    omega (arith, length-line ts hs, length-written t h, length-append (written t) (32 ∷ line ts))

-- A line of fewer than 200 words, texts in quotes and texts in braces, each with a space behind it: the
-- reader gets the texts of all of them, whatever `VAV_BackSlash` does, and stops at the newline.
pub read_line-line :
    (esc : BackSlash) (ts : List Token) (rest : Bytes)
    → All IsToken ts
    → length ts < max_tokens
    → read_line esc (length (line ts ++ rest)) false [] (line ts ++ rest)
      ≡ ret (map text ts, newline ∷ rest)
read_line-line esc ts rest h room =
    read_line-from esc ts (length (line ts ++ rest)) [] rest h (omega arith)
      (omega (arith, length-line ts h, length-append (line ts) rest))
