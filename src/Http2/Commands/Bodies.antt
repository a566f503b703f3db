-- ===== src/Http2/Commands/Bodies.antt =====
-- `cmd_txdata` of src/vtc_http2.c, and what `parse_data`
-- makes of the frame.
pub mod Received
use vtest.Base.{
  ℕ, zero, suc, ◌+◌, ◌-◌, ◌*◌, ◌/◌, ◌%◌, ◌^◌, ◌<◌, ◌≤◌, ◌≡◌, refl, sym, ap, ◌∙◌, List, [], ◌∷◌,
  ◌++◌, append_assoc, append-nil, Bytes, codes, length, length-append, take, take-append, set,
  replicate, Bool, true, false, not, ◌&&◌, ◌==◌, ltb, leb, if◌then◌else◌, Option, none, some,
  Outcome, ret, aborted, undefined, ◌>>=◌, arith, c_string,
}
use vtest.Http1.Send.{synth_body}
use vtest.Http2.Frame.{Frame, write_frame_header}
use vtest.Http2.State.{Http, Stream}
use vtest.Http2.Write.{write_frame}
use vtest.Http2.Commands.{Sent, init_frame}
use vtest.Macros.{same_text}

-- The arguments of `cmd_txdata`: NULL is none.
pub record TxData : Type 0 where
  pub body : Option Bytes
  pub pad : Option Bytes
  pub flags : ℕ

-- AZ, and the value that is given
abbrev pub fresh : Option Bytes → Outcome TxData → Outcome TxData
fresh (some text) next = aborted
fresh none next = next

-- The text of a body or of padding, where none was given
abbrev pub text_or_empty : Option Bytes → Bytes
text_or_empty none = []
text_or_empty (some text) = text

module _ (strtoul0 : Bytes → ℕ × Bytes) where
  -- A missing word is NULL for `strdup` behind `-data`, and AN or `synth_body` find it otherwise.
  pub last_data : Bytes → TxData → Outcome TxData
  last_data o d =
      if same_text o (codes "-data")
      then fresh d.body undefined
      else if same_text o (codes "-nostrend")
      then ret (record d { flags = 0 })
      else aborted

  pub data_args : List Bytes → TxData → Outcome TxData
  data_args [] d = ret d
  data_args (o ∷ []) d = last_data o d
  data_args (o ∷ a ∷ av) d =
      let body = fresh d.body (data_args av (record d { body = some a })) in
      let body_length =
        fresh d.body
          (synth_body (strtoul0 a).0 >>= λ b. data_args av (record d { body = some b })) in
      let pad = fresh d.pad (data_args av (record d { pad = some a })) in
      let pad_length =
        fresh d.pad (synth_body (strtoul0 a).0 >>= λ b. data_args av (record d { pad = some b })) in
      let open_end = data_args (a ∷ av) (record d { flags = 0 }) in
      if same_text o (codes "-data")
      then body
      else if same_text o (codes "-datalen")
      then body_length
      else if same_text o (codes "-pad")
      then pad
      else if same_text o (codes "-padlen")
      then pad_length
      else if same_text o (codes "-nostrend")
      then open_end
      else aborted

  -- `cmd_txdata` behind its arguments
  pub send_data : Http → Stream → TxData → Sent
  send_data hp s d =
      let body = text_or_empty d.body in
      elim d.pad [
        | none ↦ write_frame hp s (init_frame 0 (length body) s.id d.flags body)
        | some pad ↦
            if ltb 255 (length pad)
            then aborted
            else write_frame hp s (
                init_frame 0 (1 + length body + length pad) s.id (d.flags + 8)
                  (length pad ∷ body ++ pad))
      ]

  unfoldable pub cmd_txdata : Http → Stream → List Bytes → Sent
  unfolding data_args send_data
  cmd_txdata hp s av =
      data_args av (record { body = none; pad = none; flags = 1 }) >>= send_data hp s
