-- ===== src/Http2/Parse/Control.antt =====
-- What `parse_prio` and `parse_goaway` of src/vtc_http2.c make of the bytes of a frame.
use vtest.Base.{
  Option, ℕ, ◌+◌, ◌-◌, ◌*◌, ◌/◌, ◌%◌, ◌^◌, ◌<◌, ◌≡◌, [], ◌∷◌, ◌++◌, Bytes, length, take-append,
  Bool, true, false, ◌==◌, ltb, leb, none, some, ret, arith,
}
use vtest.Base.Int.{pos}
use vtest.Http2.Bytes.{vbe32enc, vbe32dec}
use vtest.Http2.Frame.{Frame, Meta}
use vtest.Http2.State.{Http, Stream, exclusive_stream_dependency}
use vtest.Http2.Parse.{parsed, parse_prio, parse_goaway}

-- The bytes of a number, read back
pub vbe32dec-vbe32enc : (n : ℕ) (rest : Bytes) → n < 2 ^ 32 → vbe32dec (vbe32enc n ++ rest) ≡ ret n
unfolding vbe32dec vbe32enc
vbe32dec-vbe32enc n rest h = ground arith

pub bytes_value :
    (n : ℕ)
    → n < 2 ^ 32
    → n / 2 ^ 24 % 256 * 2 ^ 24 + n / 2 ^ 16 % 256 * 2 ^ 16 + n / 2 ^ 8 % 256 * 2 ^ 8 + n % 256 ≡ n
bytes_value n h = omega arith

-- The number with the bit for an exclusive dependency
abbrev pub dependency_bits : ℕ → Bool → ℕ
dependency_bits n true = n + 2 ^ 31
dependency_bits n false = n

abbrev pub exclusive_bit : Bool → ℕ
exclusive_bit true = 1
exclusive_bit false = 0

-- The connection where the dependency of a stream is exclusive or not
abbrev pub dependents : Bool → Http → Stream → Http
dependents true hp s = exclusive_stream_dependency hp s
dependents false hp s = hp

pub parse_prio-bytes :
    (hp : Http) (s : Stream) (f : Frame) (n k : ℕ) (ex : Bool)
    → n < 2 ^ 31
    → f.content ≡ vbe32enc (dependency_bits n ex) ++ k ∷ []
    → f.size ≡ 5
    → parse_prio hp s f
      ≡ ret (
          parsed
            (dependents ex hp (record s { dependency = n }))
            (record s { dependency = n; weight = pos k })
            (record f { md = Meta.prio n (exclusive_bit ex) k }))
unfolding parse_prio vbe32enc vbe32dec
parse_prio-bytes hp s f n k true h is sized =
    let value = bytes_value (n + 2 ^ 31) (omega arith) in
    let high : ((n + 2 ^ 31) / 2 ^ 31 == 0) ≡ false = ground arith in
    let low : (n + 2 ^ 31) % 2 ^ 31 ≡ n = omega arith in rw (sized, is, value, high, low)
parse_prio-bytes hp s f n k false h is sized =
    let value = bytes_value n (omega arith) in
    let high : (n / 2 ^ 31 == 0) ≡ true = ground arith in
    let low : n % 2 ^ 31 ≡ n = omega arith in rw (sized, is, value, high, low)

-- The text behind the two numbers of a GOAWAY frame
abbrev pub debug_of : Bytes → Option Bytes
debug_of [] = none
debug_of (c ∷ cs) = some (c ∷ cs)

pub parse_goaway-bytes :
    (hp : Http) (s : Stream) (f : Frame) (last err : ℕ) (text : Bytes)
    → last < 2 ^ 31
    → err < 2 ^ 32
    → f.content ≡ vbe32enc last ++ (vbe32enc err ++ text)
    → f.size ≡ length f.content
    → parse_goaway hp s f
      ≡ ret (parsed hp s (record f { md = Meta.goaway err last (debug_of text) }))
unfolding parse_goaway vbe32enc vbe32dec
parse_goaway-bytes hp s f last err [] h k is sized =
    let low : leb 128 (last / 2 ^ 24 % 256) ≡ false = ground arith in
    let first = bytes_value last (omega arith) in
    let second = bytes_value err k in rw (sized, is, low, first, second)
parse_goaway-bytes hp s f last err (c ∷ cs) h k is sized =
    let n : ℕ = length (vbe32enc last ++ (vbe32enc err ++ c ∷ cs)) in
    let enough : ltb n 8 ≡ false = ground arith in
    let all_there : ltb n n ≡ false = ground arith in
    let low : leb 128 (last / 2 ^ 24 % 256) ≡ false = ground arith in
    let first = bytes_value last (omega arith) in
    let second = bytes_value err k in
    let more : ltb 8 n ≡ true = ground arith in
    let left : n - 8 ≡ length (c ∷ cs) = omega arith in
    rw (sized, is, enough, all_there, low, first, second, more, left, take-append (c ∷ cs) (0 ∷ []))
