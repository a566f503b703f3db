-- ===== src/Http2/Read.antt =====
-- Reading from the connection: `get_bytes`. What `poll` and `read` answer is a list of events.
use vtest.Base.{
  ℕ, zero, suc, ◌+◌, ◌-◌, ◌<◌, ◌≡◌, List, [], ◌∷◌, ◌++◌, Bytes, length, drop, false, ◌==◌,
  if◌then◌else◌, Option, none, some, arith,
}

-- An answer: `poll` was interrupted, timed out or failed; `read` met the end or failed; or it stored
-- some bytes.
pub data Event : Type 0 where
  interrupted timed_out poll_failed end_of_file read_failed : Event
  stored : Bytes → Event

-- What `get_bytes` returns, the buffer, and the events that are still to come. With no event left the
-- call is still waiting.
pub record Got : Type 0 where
  pub result : Option ℕ
  pub buf : Bytes
  pub pending : List Event

abbrev pub got : Option ℕ → Bytes → List Event → Got
got r buf es = record { result = r; buf = buf; pending = es }

-- `read(fd, buf, n)` stores its bytes at the start of the buffer.
abbrev pub store : Bytes → Bytes → Bytes
store chunk buf = chunk ++ drop (length chunk) buf

-- 1 is success, and 0 stands for 0 and -1: the callers test for `<= 0`.
pub get_bytes : List Event → Bytes → ℕ → Got
get_bytes es buf zero = got (some 1) buf es
get_bytes [] buf (suc n) = got none buf []
get_bytes (interrupted ∷ es) buf (suc n) = get_bytes es buf (suc n)
get_bytes (stored chunk ∷ es) buf (suc n) =
    let more = get_bytes es (store chunk buf) (suc n - length chunk) in
    if length chunk == 0 then got (some 0) buf es else more
get_bytes (_ ∷ es) buf (suc n) = got (some 0) buf es

-- One `read` that stores all of it: success, with the bytes in the buffer and the rest behind them.
pub get_bytes_whole :
    (chunk buf : Bytes) (es : List Event)
    → 0 < length chunk
    → get_bytes (stored chunk ∷ es) buf (length chunk)
      ≡ got (some 1) (chunk ++ drop (length chunk) buf) es
unfolding get_bytes
get_bytes_whole [] buf es h = absurd (omega arith)
get_bytes_whole (c ∷ chunk) buf es h =
    let none_left : suc (length chunk) - suc (length chunk) ≡ 0 = omega arith in
    let some_read : (suc (length chunk) == 0) ≡ false = ground arith in rw (none_left, some_read)

-- Two `read`s that store the bytes in parts: success too, but the second part lies where the first
-- began. The pointer `buf` is not moved on.
pub get_bytes_parts :
    (first second buf : Bytes) (es : List Event)
    → 0 < length first
    → 0 < length second
    → get_bytes (stored first ∷ stored second ∷ es) buf (length first + length second)
      ≡ got (some 1) (second ++ drop (length second) (first ++ drop (length first) buf)) es
unfolding get_bytes
get_bytes_parts [] second buf es h k = absurd (omega arith)
get_bytes_parts (c ∷ first) second buf es h k =
    let left : suc (length first) + length second - suc (length first) ≡ length second =
      omega arith in
    let all : suc (length first) + length second ≡ suc (length first + length second) =
      omega arith in
    let some_read : (suc (length first) == 0) ≡ false = ground arith in
    let rest = get_bytes_whole second (store (c ∷ first) buf) es k in
    rw (all, ← all, left, some_read) rest
