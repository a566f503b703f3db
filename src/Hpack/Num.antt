-- ===== src/Hpack/Num.antt =====
-- The integers of HPACK: `num_decode` and `num_encode` of src/vtc_h2_hpack.c. A byte is a number
-- below 256; masks and shifts of it are `%`, `*` and `/`.
pub mod Bounds
pub mod RoundTrip
use vtest.Base.{
  ℕ, zero, suc, ◌+◌, ◌-◌, ◌*◌, ◌/◌, ◌%◌, ◌^◌, List, [], ◌∷◌, ◌++◌, Bytes, Bool, true, false, ◌||◌,
  ltb, leb, ◌==◌, if◌then◌else◌, Outcome, ret, aborted, undefined, length,
}
use vtest.Hpack.Types.{HpkResult, hpk_more, hpk_done, hpk_err, Cursor, iter_done}

-- A result, the number, and the iterator as the call leaves it.
pub record Decoded : Type 0 where
  pub result : HpkResult
  pub num : ℕ
  pub at : Cursor

abbrev pub uint32_max : ℕ
uint32_max = 2 ^ 32 - 1

-- The `do` loop of `num_decode`. The head of its round steps `buf` to the first byte of `after`.
-- `shift` is below 39 whenever it is added to, so its own width does not show.
pub num_decode_loop : Bytes → Bytes → ℕ → ℕ → Outcome Decoded
num_decode_loop before [] num shift =
    ret (record { result = hpk_err; num = num; at = record { before = before; after = [] } })
num_decode_loop before (b ∷ after) num shift =
    let num' = (num + b % 128 * 2 ^ shift % 2 ^ 32) % 2 ^ 32 in
    let more = num_decode_loop (before ++ b ∷ []) after num' (shift + 7) in
    if leb 32 shift
    then undefined
    else if ltb ((uint32_max - num) / 2 ^ shift) (b % 128)
    then ret
        (record { result = hpk_err; num = num; at = record { before = before; after = b ∷ after } })
    else if leb 128 b
    then more
    else ret (record {
      result = iter_done after;
      num = num';
      at = record { before = before ++ b ∷ []; after = after };
    })

pub num_decode_at : ℕ → Bytes → Bytes → Outcome Decoded
num_decode_at prefix before [] = aborted
num_decode_at prefix before (b ∷ after) =
    let num = b % 2 ^ prefix in
    if prefix == 0 || ltb 8 prefix
    then aborted
    else if ltb num (2 ^ prefix - 1)
    then ret (record {
      result = iter_done after;
      num = num;
      at = record { before = before ++ b ∷ []; after = after };
    })
    else num_decode_loop (before ++ b ∷ []) after num 0

pub num_decode : Cursor → ℕ → Outcome Decoded
unfolding num_decode_at num_decode_loop
num_decode it prefix = num_decode_at prefix it.before it.after

-- A result and the iterator, whose buffer has been written to.
pub record Encoded : Type 0 where
  pub result : HpkResult
  pub at : Cursor

-- The `do` loop of `num_encode`. The byte before `after` has been written; a round steps on, and
-- the last round takes the continuation bit back and steps behind its byte.
pub num_encode_loop : Bytes → Bytes → ℕ → Outcome Encoded
num_encode_loop before [] num =
    ret (record { result = hpk_err; at = record { before = before; after = [] } })
num_encode_loop before (b ∷ after) num =
    let written = num % 128 + 128 in
    let more = num_encode_loop (before ++ written ∷ []) after (num / 128) in
    if num / 128 == 0
    then ret (record {
      result = iter_done after;
      at = record { before = before ++ (written % 128) ∷ []; after = after };
    })
    else more

pub num_encode_at : ℕ → ℕ → Bytes → Bytes → Outcome Encoded
num_encode_at prefix num before [] = aborted
num_encode_at prefix num before (b ∷ after) =
    let pmax = 2 ^ prefix - 1 in
    let high = b - b % 2 ^ prefix in
    if prefix == 0 || ltb 8 prefix
    then aborted
    else if leb num pmax
    then ret (record {
      result = iter_done after;
      at = record { before = before ++ (high + num) ∷ []; after = after };
    })
    else if ltb (suc (length after)) 2
    then ret (record { result = hpk_err; at = record { before = before; after = high ∷ after } })
    else num_encode_loop (before ++ (high + pmax) ∷ []) after (num - pmax)

pub num_encode : Cursor → ℕ → ℕ → Outcome Encoded
unfolding num_encode_at num_encode_loop
num_encode it prefix num = num_encode_at prefix num it.before it.after
