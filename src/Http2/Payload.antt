-- ===== src/Http2/Payload.antt =====
-- Frames that carry a body or a header block: `parse_data` and `parse_hdr` of src/vtc_http2.c. A
-- `char` is signed, as on x86.
pub mod Data
pub mod Headers
pub mod Priority
pub mod Fragment
use vtest.Base.{
  ℕ, zero, suc, ◌+◌, ◌-◌, ◌/◌, ◌%◌, ◌^◌, List, [], ◌∷◌, ◌++◌, Bytes, length, take, drop, get_elem?,
  Bool, true, false, not, ◌&&◌, ◌==◌, ltb, leb, if◌then◌else◌, Option, none, some, Outcome, ret,
  aborted, undefined, ◌>>=◌,
}
use vtest.Base.Int.{ℤ, pos, negsuc, ◌-ℤ◌}
use vtest.Hpack.Table.{sub32, add32}
use vtest.Http2.Bytes.{vbe32dec}
use vtest.Http2.Frame.{Frame, Meta}
use vtest.Http2.State.{
  Http, Stream, has_flag, padded_flag, priority_flag, memory, is_null, exclusive_stream_dependency,
}
use vtest.Http2.Parse.{Parsed, parsed}

-- The frame types that `parse_hdr` tells apart
abbrev pub headers : ℕ
headers = 1

abbrev pub push_promise : ℕ
push_promise = 5

abbrev pub continuation : ℕ
continuation = 9

-- The padding length once it is checked: a wrong one is reported, and then taken for 0, and so is the
-- size.
pub check_padding : Http → ℕ → ℕ → Outcome (ℕ × ℕ)
check_padding hp pad size =
    if leb size pad then (if hp.fatal then aborted else ret (0, 0)) else ret (pad, size)

-- `parse_data` from the windows on. `input` is what lies behind the pointer, and `null` says that it is
-- NULL.
pub take_data : Http → Stream → Frame → ℕ → Bool → Bytes → Outcome Parsed
take_data hp s f size null input =
    let s' = if s.id == 0 then s else record s { win_self = s.win_self -ℤ pos size } in
    let hp' = record hp { h2_win_self = hp.h2_win_self -ℤ pos size } in
    if size == 0
    then (if null then ret (parsed hp' s' f) else aborted)
    else if ltb (length input) size
    then undefined
    else ret (parsed hp' (record s' { body = s.body ++ take size input }) f)

-- The padded branch of `parse_data`
pub padded_data : Http → Stream → Frame → Bytes → Outcome Parsed
padded_data hp s f [] = undefined
padded_data hp s f (byte ∷ input) = do
  (pad, size) ← check_padding hp byte f.size
  take_data hp s (record f { md = Meta.padded pad }) (sub32 size (pad + 1)) false input

pub parse_data : Http → Stream → Frame → Outcome Parsed
parse_data hp s f =
    let buf = memory f.content in
    if has_flag f.flags padded_flag
    then padded_data hp s f buf
    else take_data hp s f f.size (is_null f.content) buf

-- `VSB_bcat(vsb, data + shift, size - shift)`
pub bcat : Bytes → Bytes → ℕ → ℕ → Outcome Bytes
bcat vsb input shift n =
    if ltb (length (drop shift input)) n then undefined else ret (vsb ++ take n (drop shift input))

-- The conversion of a char to int
abbrev pub signed8 : ℕ → ℤ
signed8 b = if ltb b 128 then pos b else negsuc (255 - b)

-- The weight byte of a HEADERS frame
pub with_weight : Stream → Option ℕ → Outcome Stream
with_weight s none = undefined
with_weight s (some b) = ret (record s { weight = signed8 b })

-- The part of `parse_hdr` behind the padding: the fields before the block, and the block
pub hdr_fields : Http → Stream → Frame → Bytes → ℕ → ℕ → Outcome (Parsed × Bytes)
hdr_fields hp s f vsb shift size =
    let buf = memory f.content in
    if (f.type == headers) && has_flag f.flags priority_flag
    then (do
      n ← vbe32dec buf
      s' ← with_weight (record s { dependency = n % 2 ^ 31 }) (get_elem? buf 4)
      let hp' = if n / 2 ^ 31 == 0 then hp else exclusive_stream_dependency hp s'
      vsb' ← bcat vsb buf (shift + 5) (sub32 size (shift + 5))
      ret (parsed hp' s' f, vsb'))
    else if f.type == push_promise
    then (do
      n ← vbe32dec buf
      let f' = record f { md = Meta.promised (n % 2 ^ 31) }
      vsb' ← bcat vsb buf (shift + 4) (sub32 size (shift + 4))
      ret (parsed hp s f', vsb'))
    else (do vsb' ← bcat vsb buf shift (sub32 size shift); ret (parsed hp s f, vsb'))

-- The padded branch of `parse_hdr`
pub padded_hdr : Http → Stream → Frame → Bytes → Bytes → Outcome (Parsed × Bytes)
padded_hdr hp s f vsb [] = undefined
padded_hdr hp s f vsb (byte ∷ rest) = do
  (pad, size) ← check_padding hp byte f.size
  hdr_fields hp s (record f { md = Meta.padded pad }) vsb 1 (sub32 size pad)

-- The buffer of the header block comes with the call, and goes back with what the frame adds.
pub parse_hdr : Http → Stream → Frame → Bytes → Outcome (Parsed × Bytes)
parse_hdr hp s f vsb =
    if has_flag f.flags padded_flag && not (f.type == continuation)
    then padded_hdr hp s f vsb (memory f.content)
    else hdr_fields hp s f vsb 0 f.size
