-- ===== src/Http1/Send/Pattern.antt =====
-- The pattern that `chunkedlen` sends and `expect_pattern` of src/vtc_http.c expects.
use vtest.Base.{
  ℕ, zero, suc, ◌+◌, ◌-◌, ◌*◌, ◌/◌, ◌%◌, ◌≤◌, ◌<◌, ◌≡◌, refl, sym, ap, ◌∙◌, ◌∷◌, ◌++◌, append-nil,
  length, true, false, ltb, ◌==◌, ret, arith, Bool-cases, inl, inr, c_string,
}
use vtest.Http1.Send.{
  buf_bytes, fill_pattern, buf_size, next_char, pattern_loop, cmd_http_expect_pattern,
}

pub length-buf_bytes : (u n : ℕ) → length (buf_bytes u n) ≡ n
unfolding buf_bytes
length-buf_bytes u zero = refl
length-buf_bytes u (suc n) = ap suc (length-buf_bytes (suc u) n)

buf_bytes-append : (u a b : ℕ) → buf_bytes u a ++ buf_bytes (u + a) b ≡ buf_bytes u (a + b)
unfolding buf_bytes
buf_bytes-append u zero b =
    let s : u + 0 ≡ u = omega arith in let t : 0 + b ≡ b = omega arith in rw (s, t) refl
buf_bytes-append u (suc a) b =
    let s : u + suc a ≡ suc u + a = omega arith in
    let t : suc a + b ≡ suc (a + b) = omega arith in
    rw (s, t) (ap (◌∷◌ (u % 8 + 48)) (buf_bytes-append (suc u) a b))

buf_bytes-period : (k u n : ℕ) → buf_bytes (u + 8 * k) n ≡ buf_bytes u n
unfolding buf_bytes
buf_bytes-period k u zero = refl
buf_bytes-period k u (suc n) =
    let same : (u + 8 * k) % 8 ≡ u % 8 = omega arith in
    let s : suc (u + 8 * k) ≡ suc u + 8 * k = omega arith in
    rw (same, s) (ap (◌∷◌ (u % 8 + 48)) (buf_bytes-period k (suc u) n))

-- With a buffer of a multiple of eight bytes, the pattern goes on where the buffer begins again.
fill_pattern-buf_bytes :
    (size k rounds len : ℕ)
    → size ≡ 8 * suc k
    → len ≤ rounds
    → fill_pattern size rounds len ≡ buf_bytes 0 len
unfolding fill_pattern buf_bytes
fill_pattern-buf_bytes size k rounds zero whole enough = refl
fill_pattern-buf_bytes size k zero (suc len) whole enough = absurd (omega (arith, enough))
fill_pattern-buf_bytes size k (suc rounds) (suc len) whole enough =
    elim (Bool-cases (ltb (suc len) size)) [
      | inl less ↦
          let none_left : suc len - suc len ≡ 0 = omega arith in
          rw (less, none_left)
            (ap (λ t. buf_bytes 0 (suc len) ++ t)
                (fill_pattern-buf_bytes size k rounds 0 whole (omega arith))
              ∙ append-nil (buf_bytes 0 (suc len)))
      | inr more ↦
          let fits : size ≤ suc len = ground (arith, more) in
          let parts : size + (suc len - size) ≡ suc len = omega (arith, fits) in
          let again : buf_bytes 0 (suc len - size) ≡ buf_bytes (0 + size) (suc len - size) =
            sym (buf_bytes-period (suc k) 0 (suc len - size))
            ∙ ap (λ s. buf_bytes (0 + s) (suc len - size)) (sym whole) in
          rw more (
            ap (λ t. buf_bytes 0 size ++ t)
              (fill_pattern-buf_bytes size k rounds (suc len - size) whole
                  (omega (arith, whole, enough))
                ∙ again)
            ∙ buf_bytes-append 0 size (suc len - size)
            ∙ ap (buf_bytes 0) parts)
    ]

pub fill_pattern-whole : (len : ℕ) → fill_pattern buf_size len len ≡ buf_bytes 0 len
fill_pattern-whole len = fill_pattern-buf_bytes buf_size 2047 len len (omega arith) (omega arith)

next_char-digit : (u : ℕ) → next_char (u % 8 + 48) ≡ suc u % 8 + 48
next_char-digit u = elim (Bool-cases (u % 8 == 7)) [
  | inl last ↦
      let at : u % 8 ≡ 7 = ground (arith, last) in
      let wraps : suc u % 8 ≡ 0 = omega (arith, at) in rw (at, wraps) refl
  | inr other ↦
      let at : u % 8 < 7 = ground (arith, other) in
      let next : suc u % 8 ≡ u % 8 + 1 = omega (arith, at) in
      let low : (u % 8 + 48 + 1) / 8 ≡ 6 = omega (arith, at) in rw (low, next) (omega arith)
]

pattern_loop-buf_bytes : (u n : ℕ) → pattern_loop (u % 8 + 48) (buf_bytes u n) ≡ ret (record {})
unfolding pattern_loop buf_bytes
pattern_loop-buf_bytes u zero = refl
pattern_loop-buf_bytes u (suc n) =
    let same : (u % 8 + 48 == u % 8 + 48) ≡ true = ground arith in
    rw same (
      ap (λ t. pattern_loop t (buf_bytes (suc u) n)) (next_char-digit u)
      ∙ pattern_loop-buf_bytes (suc u) n)

c_string-buf_bytes : (u n : ℕ) → c_string (buf_bytes u n) ≡ buf_bytes u n
unfolding c_string buf_bytes
c_string-buf_bytes u zero = refl
c_string-buf_bytes u (suc n) =
    let no_end : (u % 8 + 48 == 0) ≡ false = ground arith in
    rw (no_end, c_string-buf_bytes (suc u) n) refl

pub cmd_http_expect_pattern-buf_bytes :
    (n : ℕ) → cmd_http_expect_pattern (buf_bytes 0 n) ≡ ret (record {})
unfolding cmd_http_expect_pattern
cmd_http_expect_pattern-buf_bytes n =
    ap (pattern_loop 48) (c_string-buf_bytes 0 n) ∙ pattern_loop-buf_bytes 0 n
