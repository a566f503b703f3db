-- ===== src/Http2/Commands/Settings.antt =====
-- `cmd_txsettings` of src/vtc_http2.c, and what `parse_settings` makes of the frame that it sends.
pub mod Received
pub mod Windows
use vtest.Base.{
  ℕ, zero, suc, ◌+◌, ◌-◌, ◌*◌, ◌/◌, ◌%◌, ◌^◌, ◌<◌, ◌≤◌, ◌≡◌, refl, sym, ap, ◌∙◌, List, [], ◌∷◌,
  ◌++◌, append_assoc, Bytes, codes, length, length-append, map, take, take-append, replicate, Bool,
  true, false, not, ◌&&◌, ◌||◌, ◌==◌, ltb, leb, if◌then◌else◌, Option, none, some, Outcome, ret,
  aborted, undefined, ◌>>=◌, arith, All,
}
use vtest.Base.Int.{ℤ, pos, ◌+ℤ◌, ◌-ℤ◌}
use vtest.Hpack.Types.{HpkCtx}
use vtest.Hpack.Table.{hpk_resize_tbl}
use vtest.Http1.Strtoul.{strtoul}
use vtest.Http2.Bytes.{vbe32enc}
use vtest.Http2.Frame.{Frame, write_frame_header}
use vtest.Http2.State.{Http, Stream}
use vtest.Http2.Write.{write_frame}
use vtest.Http2.Commands.{Sent, init_frame, strtou32_check}
use vtest.Macros.{same_text}

-- The variables of the loop: the connection and the stream, the bytes before `cursor`, and the flags
pub record Writing : Type 0 where
  pub hp : Http
  pub s : Stream
  pub buf : Bytes
  pub flags : ℕ

abbrev pub vbe16enc : ℕ → Bytes
vbe16enc u = (u / 2 ^ 8 % 256) ∷ (u % 256) ∷ []

-- A setting is put at `cursor`, in a buffer of 512 bytes that nothing guards.
pub put_setting : ℕ → ℕ → Writing → Outcome Writing
put_setting code val w =
    if ltb 512 (length w.buf + 6)
    then undefined
    else ret (record w { buf = w.buf ++ (vbe16enc code ++ vbe32enc val) })

pub put_push : Bytes → Writing → Outcome Writing
put_push av w =
    if same_text av (codes "false")
    then put_setting 2 0 w
    else if same_text av (codes "true")
    then put_setting 2 1 w
    else aborted

-- `HPK_ResizeTbl` of the decoder's table
pub resize_decoder : ℕ → Writing → Outcome Writing
resize_decoder val w =
    hpk_resize_tbl w.hp.decctx val >>= λ r. ret (record w { hp = record (w.hp) { decctx = r.0 } })

abbrev pub grown : ℕ → ℕ → Stream → Stream
grown val init s = record s { win_self = s.win_self +ℤ (pos val -ℤ pos init) }

-- The new initial size counts for the streams that are there.
pub init_window : ℕ → Writing → Writing
init_window val w = record w {
  hp = record (w.hp) {
    streams = map (grown val w.hp.win_self_init) w.hp.streams;
    win_self_init = val;
  };
  s = grown val w.hp.win_self_init w.s;
}

-- The identifier behind `-0x`
pub tag_number : Bytes → Outcome ℕ
tag_number p = elim (strtoul 16 p) [
  | none ↦ aborted
  | some (u, []) ↦ if ltb 0xffff u then aborted else ret u
  | some (u, c ∷ cs) ↦ aborted
]

-- The text behind `-0x`
pub behind_0x : Bytes → Option Bytes
behind_0x (a ∷ b ∷ c ∷ p) = if (a == 45) && ((b == 48) && (c == 120)) then some p else none
behind_0x _ = none

module _ (strtoul0 : Bytes → ℕ × Bytes) where
  -- PUT_KV
  pub put_kv : ℕ → Bytes → Writing → Outcome Writing
  put_kv code av w = strtou32_check strtoul0 0 av >>= λ val. put_setting code val w

  -- `-hdrtbl` and `-winsize`, which change more than the frame
  pub put_hdrtbl : Bytes → Writing → Outcome Writing
  put_hdrtbl av w = do
    val ← strtou32_check strtoul0 0 av
    w' ← put_setting 1 val w
    resize_decoder val w'

  pub put_winsize : Bytes → Writing → Outcome Writing
  put_winsize av w = do
    val ← strtou32_check strtoul0 0 av
    w' ← put_setting 4 val w
    ret (init_window val w')

  -- `-0xHH[HH]`
  pub put_tag : Bytes → Bytes → Writing → Outcome Writing
  put_tag p av w = tag_number p >>= λ u. put_kv u av w

  -- An option with its argument: none for what is no such option
  pub put_option : Bytes → Bytes → Writing → Option (Outcome Writing)
  put_option o av w =
      if same_text o (codes "-push")
      then some (put_push av w)
      else if same_text o (codes "-hdrtbl")
      then some (put_hdrtbl av w)
      else if same_text o (codes "-maxstreams")
      then some (put_kv 3 av w)
      else if same_text o (codes "-winsize")
      then some (put_winsize av w)
      else if same_text o (codes "-framesize")
      then some (put_kv 5 av w)
      else if same_text o (codes "-hdrsize")
      then some (put_kv 6 av w)
      else elim (behind_0x o) [ none ↦ none | some p ↦ some (put_tag p av w) ]

  -- An option without its argument: `-push` gives NULL to `strcmp`, and the others have AN, those of
  -- `-0x` behind the test of the identifier.
  pub last_option : Bytes → Writing → Outcome Writing
  last_option o w =
      if same_text o (codes "-push")
      then undefined
      else if same_text o (codes "-ack")
      then ret (record w { flags = 1 })
      else aborted

  pub settings_args : List Bytes → Writing → Outcome Writing
  settings_args [] w = ret w
  settings_args (o ∷ []) w = last_option o w
  settings_args (o ∷ a ∷ av) w =
      let ack = settings_args (a ∷ av) (record w { flags = 1 }) in
      elim (put_option o a w) [
        | some put ↦ put >>= settings_args av
        | none ↦ if same_text o (codes "-ack") then ack else aborted
      ]

  -- The frame has six bytes for each setting, in the buffer of 512 that was filled with zeros.
  pub send_settings : Writing → Sent
  send_settings w =
      write_frame w.hp w.s
        (init_frame 4 (length w.buf) w.s.id w.flags (w.buf ++ replicate (512 - length w.buf) 0))

  unfoldable pub cmd_txsettings : Http → Stream → List Bytes → Sent
  unfolding settings_args send_settings
  cmd_txsettings hp s av =
      settings_args av (record { hp = hp; s = s; buf = []; flags = 0 }) >>= send_settings
