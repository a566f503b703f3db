-- ===== src/Http2/Parse.antt =====
-- What a frame of each type does to its stream and its connection: the `parse_*` functions of
-- src/vtc_http2.c but for the two in Http2/Payload. What they only log is left out, and `vtc_log` at the level
-- `hp->fatal` ends the test where that level is fatal.
pub mod Control
pub mod Settings
use vtest.Base.{
  ℕ, zero, suc, ◌+◌, ◌-◌, ◌*◌, ◌/◌, ◌%◌, ◌^◌, List, [], ◌∷◌, ◌++◌, Bytes, length, take, drop, set,
  replicate, Bool, true, false, not, ◌&&◌, ◌==◌, ltb, leb, if◌then◌else◌, Option, none, some,
  Outcome, ret, aborted, undefined, ◌>>=◌,
}
use vtest.Base.Int.{ℤ, pos, negsuc, signed32}
use vtest.Hpack.Types.{HpkCtx}
use vtest.Hpack.Table.{hpk_resize_tbl}
use vtest.Http2.Bytes.{vbe16dec, vbe32dec}
use vtest.Http2.Frame.{Frame, Meta}
use vtest.Http2.State.{is_null, Http, Stream, has_flag, memory, exclusive_stream_dependency}

-- The stream, the connection and the frame after a call
pub record Parsed : Type 0 where
  pub hp : Http
  pub s : Stream
  pub f : Frame

abbrev pub parsed : Http → Stream → Frame → Parsed
parsed hp s f = record { hp = hp; s = s; f = f }

-- The weight byte of `parse_prio`, and what lies behind it
pub prio_fields : Http → Stream → Frame → ℕ → Bytes → Outcome Parsed
prio_fields hp s f n (weight ∷ rest) =
    let s' = record s { dependency = n % 2 ^ 31 } in
    let hp' = if n / 2 ^ 31 == 0 then hp else exclusive_stream_dependency hp s' in
    let f' = record f { md = Meta.prio (n % 2 ^ 31) (if n / 2 ^ 31 == 0 then 0 else 1) weight } in
    ret (parsed hp' (record s' { weight = pos weight }) f')
prio_fields hp s f n [] = undefined

pub parse_prio : Http → Stream → Frame → Outcome Parsed
unfolding prio_fields
parse_prio hp s f =
    if not (f.size == 5)
    then aborted
    else if is_null f.content
    then aborted
    else (do n ← vbe32dec (memory f.content); prio_fields hp s f n (drop 4 (memory f.content)))

pub parse_rst : Http → Stream → Frame → Outcome Parsed
parse_rst hp s f = if not (f.size == 4) then aborted else (do
  err ← vbe32dec (memory f.content)
  ret (parsed hp s (record f { md = Meta.rst_err err })))

-- SETTINGS_MAX, one more than the last identifier with a name. `h2_settings` has NULL there, as for the
-- identifiers without a name below it.
abbrev pub settings_max : ℕ
settings_max = 17

abbrev no_settings : List (Option ℤ)
no_settings = replicate 18 none

-- `HPK_ResizeTbl` for the identifier SETTINGS_HEADER_TABLE_SIZE
pub resize_for : ℕ → ℕ → HpkCtx → Outcome HpkCtx
resize_for t v encctx =
    if t == 1 then (do (ctx, r) ← hpk_resize_tbl encctx v; ret ctx) else ret encctx

-- The loop of `parse_settings` over the bytes that are left
pub settings_loop : HpkCtx → List (Option ℤ) → Bytes → Outcome (HpkCtx × List (Option ℤ))
settings_loop encctx table [] = ret (encctx, table)
settings_loop encctx table (t1 ∷ t0 ∷ v3 ∷ v2 ∷ v1 ∷ v0 ∷ rest) =
    let t = t1 * 2 ^ 8 + t0 in
    let v = v3 * 2 ^ 24 + v2 * 2 ^ 16 + v1 * 2 ^ 8 + v0 in
    let table' = if leb t settings_max then set table t (some (signed32 v)) else table in
    resize_for t v encctx >>= λ ctx. settings_loop ctx table' rest
settings_loop encctx table _ = undefined

pub parse_settings : Http → Stream → Frame → Outcome Parsed
parse_settings hp s f =
    if not (f.size % 6 == 0)
    then aborted
    else if not (s.id == 0)
    then aborted
    else if ltb (length f.content) f.size
    then undefined
    else (do
      (encctx, table) ← settings_loop hp.encctx no_settings (take f.size f.content)
      ret (parsed (record hp { encctx = encctx }) s (record f { md = Meta.settings table })))

pub parse_ping : Http → Stream → Frame → Outcome Parsed
parse_ping hp s f =
    if not (f.size == 8)
    then aborted
    else if ltb (length (memory f.content)) 8
    then undefined
    else ret (parsed hp s (record f { md = Meta.ping (take 8 (memory f.content)) (f.flags % 2) }))

abbrev starts_high : Bytes → Bool
starts_high [] = false
starts_high (b ∷ bs) = leb 128 b

-- The two numbers of `parse_goaway`, and the text behind them
goaway_fields : Http → Stream → Frame → Bytes → Outcome Parsed
goaway_fields hp s f buf = do
  stid ← vbe32dec buf
  err ← vbe32dec (drop 4 buf)
  let debug = if ltb 8 f.size then some (take (f.size - 8) (drop 8 buf)) else none
  ret (parsed hp s (record f { md = Meta.goaway err stid debug }))

pub parse_goaway : Http → Stream → Frame → Outcome Parsed
unfolding goaway_fields
parse_goaway hp s f =
    if ltb f.size 8
    then aborted
    else if ltb (length f.content) f.size
    then undefined
    else if starts_high f.content
    then aborted
    else goaway_fields hp s f (memory f.content)

pub parse_winup : Http → Stream → Frame → Outcome Parsed
parse_winup hp s f = if not (f.size == 4) then aborted else (do
  size ← vbe32dec (memory f.content)
  let told = ret (parsed hp s (record f { md = Meta.winup_size size }))
  if leb (2 ^ 31) size && hp.fatal then aborted else told)
