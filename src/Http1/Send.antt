-- ===== src/Http1/Send.antt =====
-- What src/vtc_http.c sends as a body, and its test of a body: `synth_body`, the commands `chunked`,
-- `chunkedlen` and `expect_pattern`. What is written to the connection is the result.
pub mod Pattern
pub mod Hex
pub mod Received
use vtest.Base.{
  ℕ, zero, suc, ◌+◌, ◌-◌, ◌*◌, ◌/◌, ◌%◌, ◌^◌, List, [], ◌∷◌, ◌++◌, Bytes, length, Bool, not, set,
  ◌||◌, ◌==◌, ltb, leb, if◌then◌else◌, Outcome, ret, aborted, c_string,
}
use vtest.Http1.Strtoul.Digits.{numeral}

-- The digits of a number below 16 ^ 16, as `%x` writes them in front of others: the first, and the rest
unfoldable pub hex_from : ℕ → ℕ → List ℕ → ℕ × List ℕ
hex_from zero n ds = (n % 16, ds)
hex_from (suc places) n ds =
    let more = hex_from places (n / 16) (n % 16 ∷ ds) in if n / 16 == 0 then (n % 16, ds) else more

abbrev pub hex : ℕ → ℕ × List ℕ
hex n = hex_from 15 n []

abbrev pub printed_hex : ℕ → Bytes
printed_hex n = numeral ((hex n).0 ∷ (hex n).1)

abbrev pub nl : Bytes
nl = 13 ∷ 10 ∷ []

-- `cmd_http_chunked` of a text
unfoldable pub cmd_http_chunked : Bytes → Bytes
cmd_http_chunked av = printed_hex (length av) ++ nl ++ av ++ nl

-- The first bytes of `buf`, from its byte `u` on
unfoldable pub buf_bytes : ℕ → ℕ → Bytes
buf_bytes u zero = []
buf_bytes u (suc n) = (u % 8 + 48) ∷ buf_bytes (suc u) n

abbrev pub min : ℕ → ℕ → ℕ
min a b = if ltb a b then a else b

-- The loop of `cmd_http_chunkedlen`, for so many bytes that are left, with a `buf` of a size. A round
-- takes a byte at least.
unfoldable pub fill_pattern : ℕ → ℕ → ℕ → Bytes
fill_pattern size rounds zero = []
fill_pattern size zero (suc len) = []
fill_pattern size (suc rounds) (suc len) =
    let v = min (suc len) size in buf_bytes 0 v ++ fill_pattern size rounds (suc len - v)

abbrev pub buf_size : ℕ
buf_size = 16384

-- `cmd_http_chunkedlen` of a length
unfoldable pub cmd_http_chunkedlen : ℕ → Bytes
cmd_http_chunkedlen zero = 48 ∷ (nl ++ nl)
cmd_http_chunkedlen (suc len) =
    printed_hex (suc len) ++ nl ++ fill_pattern buf_size (suc len) (suc len) ++ nl

-- t += 1; t &= ~0x08;
abbrev pub next_char : ℕ → ℕ
next_char t = if (t + 1) / 8 % 2 == 1 then t + 1 - 8 else t + 1

-- The loop of `cmd_http_expect_pattern`, over a C string
pub pattern_loop : ℕ → Bytes → Outcome (Unit {0})
pattern_loop t [] = ret (record {})
pattern_loop t (c ∷ cs) =
    let more = pattern_loop (next_char t) cs in if not (c == t) then aborted else more

-- `cmd_http_expect_pattern` of the body
pub cmd_http_expect_pattern : Bytes → Outcome (Unit {0})
cmd_http_expect_pattern body = pattern_loop 48 (c_string body)

-- The loop of `synth_body` without random bytes: for so many bytes, the place `j`, and `k` and `l`
unfoldable pub synth_loop : ℕ → ℕ → ℕ → ℕ → Bytes
synth_loop zero j k l = []
synth_loop (suc n) j k l =
    let k' = if k + 1 == 126 then 33 else k + 1 in
    let l' = if l + 1 == 126 then 33 else l + 1 in
    let line_end = j % 64 == 63 in
    (if line_end then 10 else l)
    ∷ synth_loop n (j + 1) (if line_end then k' else k) (if line_end then k' else l')

-- `synth_body` of a length: its last byte is a newline. A length from 2 ^ 31 on is negative as an int.
pub synth_body : ℕ → Outcome Bytes
synth_body len =
    let i = len % 2 ^ 32 in
    if (i == 0) || leb (2 ^ 31) i then aborted else ret (set (synth_loop i 0 33 33) (i - 1) 10)
