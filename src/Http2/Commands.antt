-- ===== src/Http2/Commands.antt =====
-- The commands of src/vtc_http2.c that send control frames: txrst, txprio, txsettings, txping, txgoaway and
-- txwinup, and txdata. They are given the words behind the command. `strtoul` in base 0 is libc's and an
-- argument; what is written to the connection is part of the result.
pub mod Control
pub mod Settings
pub mod Bodies
use vtest.Base.{
  ℕ, zero, suc, ◌+◌, ◌-◌, ◌*◌, ◌/◌, ◌%◌, ◌^◌, List, [], ◌∷◌, ◌++◌, Bytes, codes, length, map, take,
  replicate, Bool, true, false, not, ◌&&◌, ◌==◌, ltb, leb, if◌then◌else◌, Option, none, some,
  Outcome, ret, aborted, undefined, ◌>>=◌,
}
use vtest.Base.Int.{ℤ, pos, ◌+ℤ◌, ◌-ℤ◌}
use vtest.Hpack.Types.{HpkCtx}
use vtest.Hpack.Table.{hpk_resize_tbl}
use vtest.Http1.Strtoul.{strtoul}
use vtest.Http2.Bytes.{vbe32enc}
use vtest.Http2.Frame.{Frame, Meta}
use vtest.Http2.State.{Http, Stream, exclusive_stream_dependency}
use vtest.Http2.Write.{write_frame}
use vtest.Macros.{same_text}

-- A command leaves the connection, the stream, and the bytes that it writes.
abbrev pub Sent : Type 0
Sent = Outcome (Http × Stream × Bytes)

-- INIT_FRAME, with the data that the command gives the frame
abbrev pub init_frame : ℕ → ℕ → ℕ → ℕ → Bytes → Frame
init_frame type size stid flags content = record {
  size = size;
  stid = stid;
  type = type;
  flags = flags;
  content = content;
  md = Meta.unset;
}

-- The names of the errors, each at its value
abbrev pub h2_errs : List Bytes
h2_errs =
    codes "NO_ERROR"
    ∷ codes "PROTOCOL_ERROR"
    ∷ codes "INTERNAL_ERROR"
    ∷ codes "FLOW_CONTROL_ERROR"
    ∷ codes "SETTINGS_TIMEOUT"
    ∷ codes "STREAM_CLOSED"
    ∷ codes "FRAME_SIZE_ERROR"
    ∷ codes "REFUSED_STREAM"
    ∷ codes "CANCEL"
    ∷ codes "COMPRESSION_ERROR"
    ∷ codes "CONNECT_ERROR"
    ∷ codes "ENHANCE_YOUR_CALM"
    ∷ codes "INADEQUATE_SECURITY"
    ∷ codes "HTTP_1_1_REQUIRED"
    ∷ []

-- The loop over the names, which gives the value of the first that fits
unfoldable pub err_named : List Bytes → ℕ → Bytes → Option ℕ
err_named [] err name = none
err_named (e ∷ es) err name =
    let later = err_named es (err + 1) name in if same_text e name then some err else later

-- STRTOU32: a uint32_t keeps 32 bits of the unsigned long.
unfoldable pub whole_number : ℕ × Bytes → Outcome ℕ
whole_number (n, []) = ret (n % 2 ^ 32)
whole_number (n, c ∷ cs) = aborted

-- The bound of STRTOU32_CHECK, in bits, where 0 is none
unfoldable pub check_bits : ℕ → ℕ → Outcome ℕ
check_bits zero n = ret n
check_bits (suc l) n = if leb (2 ^ suc l) n then aborted else ret n

-- What the arguments of a PRIORITY frame set
pub record Prio : Type 0 where
  pub stid : ℕ
  pub exclusive : Bool
  pub weight : ℕ

-- What the arguments of a GOAWAY frame set; `debug` is none while `f.data` is NULL.
pub record GoAway : Type 0 where
  pub err : ℕ
  pub laststream : ℕ
  pub debug : Option Bytes

module _ (strtoul0 : Bytes → ℕ × Bytes) where
  -- STRTOU32
  unfoldable pub strtou32 : Bytes → Outcome ℕ
  strtou32 ss = whole_number (strtoul0 ss)

  -- STRTOU32_CHECK
  unfoldable pub strtou32_check : ℕ → Bytes → Outcome ℕ
  strtou32_check l ss = strtou32 ss >>= check_bits l

  -- The argument of `-err`
  unfoldable pub read_err : Bytes → Outcome ℕ
  read_err av = elim (err_named h2_errs 0 av) [ none ↦ strtou32 av | some err ↦ ret err ]

  -- The arguments of `cmd_txrst`: a word that is missing is a NULL pointer for `strcmp`.
  pub rst_args : List Bytes → ℕ → Outcome ℕ
  rst_args [] err = ret err
  rst_args (o ∷ []) err = if same_text o (codes "-err") then undefined else aborted
  rst_args (o ∷ e ∷ av) err =
      let next = read_err e >>= rst_args av in if same_text o (codes "-err") then next else aborted

  pub cmd_txrst : Http → Stream → List Bytes → Sent
  cmd_txrst hp s av = do
    err ← rst_args av 0
    write_frame hp s (init_frame 3 4 s.id 0 (vbe32enc err))

  -- The arguments of `cmd_txprio`
  pub prio_args : List Bytes → Prio → Outcome Prio
  prio_args [] p = ret p
  prio_args (o ∷ []) p =
      if same_text o (codes "-ex") then ret (record p { exclusive = true }) else aborted
  prio_args (o ∷ n ∷ av) p =
      let stream = strtou32_check 0 n >>= λ v. prio_args av (record p { stid = v }) in
      let weight = strtou32_check 8 n >>= λ v. prio_args av (record p { weight = v }) in
      let ex = prio_args (n ∷ av) (record p { exclusive = true }) in
      if same_text o (codes "-stream")
      then stream
      else if same_text o (codes "-ex")
      then ex
      else if same_text o (codes "-weight")
      then weight
      else aborted

  -- `stid | exclusive`
  abbrev pub with_exclusive : Prio → ℕ
  with_exclusive p = if p.exclusive then p.stid % 2 ^ 31 + 2 ^ 31 else p.stid

  -- `cmd_txprio` behind its arguments. `dependency` is an int.
  pub send_prio : Http → Stream → Prio → Sent
  send_prio hp s p =
      let s' = record s { weight = pos (p.weight % 256); dependency = p.stid } in
      let hp' = if p.exclusive then exclusive_stream_dependency hp s' else hp in
      let buf = vbe32enc (with_exclusive p) ++ (p.weight % 256) ∷ [] in
      write_frame hp' s' (init_frame 2 5 s.id 0 buf)

  unfoldable pub cmd_txprio : Http → Stream → List Bytes → Sent
  unfolding send_prio
  cmd_txprio hp s av =
      prio_args av (record { stid = 0; exclusive = false; weight = 0 }) >>= send_prio hp s

  -- The arguments of `cmd_txping`: the data, and the flags
  pub ping_args : List Bytes → Option Bytes → ℕ → Outcome (Option Bytes × ℕ)
  ping_args [] given flags = ret (given, flags)
  ping_args (o ∷ []) given flags =
      if same_text o (codes "-data")
      then elim given [ some text ↦ aborted | none ↦ undefined ]
      else if same_text o (codes "-ack")
      then ret (given, 1)
      else aborted
  ping_args (o ∷ d ∷ av) given flags =
      let ack = ping_args (d ∷ av) given 1 in
      let taken = ping_args av (some d) flags in
      let on_data : Outcome (Option Bytes × ℕ) = elim given [
        | some text ↦ aborted
        | none ↦ if not (length d == 8) then aborted else taken
      ] in
      if same_text o (codes "-data")
      then on_data
      else if same_text o (codes "-ack")
      then ack
      else aborted

  -- The data, or the buffer of zeros
  abbrev pub ping_data : Option Bytes → Bytes
  ping_data none = replicate 8 0
  ping_data (some d) = d

  unfoldable pub cmd_txping : Http → Stream → List Bytes → Sent
  unfolding ping_args
  cmd_txping hp s av = do
    given ← ping_args av none 0
    write_frame hp s (init_frame 6 8 s.id given.1 (ping_data given.0))

  -- The arguments of `cmd_txgoaway`
  pub goaway_args : List Bytes → GoAway → Outcome GoAway
  goaway_args [] g = ret g
  goaway_args (o ∷ []) g =
      if same_text o (codes "-err")
      then undefined
      else if same_text o (codes "-laststream")
      then aborted
      else if same_text o (codes "-debug")
      then elim g.debug [ some text ↦ aborted | none ↦ undefined ]
      else aborted
  goaway_args (o ∷ a ∷ av) g =
      let err = read_err a >>= λ v. goaway_args av (record g { err = v }) in
      let last = strtou32_check 31 a >>= λ v. goaway_args av (record g { laststream = v }) in
      let given = goaway_args av (record g { debug = some a }) in
      let debug : Outcome GoAway = elim g.debug [ some text ↦ aborted | none ↦ given ] in
      if same_text o (codes "-err")
      then err
      else if same_text o (codes "-laststream")
      then last
      else if same_text o (codes "-debug")
      then debug
      else aborted

  abbrev pub debug_text : Option Bytes → Bytes
  debug_text none = []
  debug_text (some d) = d

  unfoldable pub send_goaway : Http → Stream → GoAway → Sent
  send_goaway hp s g =
      let text = debug_text g.debug in
      write_frame hp s
        (init_frame 7 (8 + length text) s.id 0 (vbe32enc g.laststream ++ (vbe32enc g.err ++ text)))

  unfoldable pub cmd_txgoaway : Http → Stream → List Bytes → Sent
  unfolding goaway_args
  cmd_txgoaway hp s av =
      goaway_args av (record { err = 0; laststream = 0; debug = none }) >>= send_goaway hp s

  -- The arguments of `cmd_txwinup`
  pub winup_args : List Bytes → ℕ → Outcome ℕ
  winup_args [] size = ret size
  winup_args (o ∷ []) size = aborted
  winup_args (o ∷ n ∷ av) size =
      let next = strtou32_check 0 n >>= winup_args av in
      if same_text o (codes "-size") then next else aborted

  -- The windows of a receiver that gives credit
  pub send_winup : Http → Stream → ℕ → Sent
  send_winup hp s size =
      let hp' = if s.id == 0 then record hp { h2_win_self = hp.h2_win_self +ℤ pos size } else hp in
      let s' = record s { win_self = s.win_self +ℤ pos size } in
      write_frame hp' s' (init_frame 8 4 s.id 0 (vbe32enc size))

  -- `cmd_txwinup` wants two words at least.
  unfoldable pub cmd_txwinup : Http → Stream → List Bytes → Sent
  unfolding winup_args send_winup
  cmd_txwinup hp s [] = aborted
  cmd_txwinup hp s (o ∷ []) = aborted
  cmd_txwinup hp s (o ∷ n ∷ av) = winup_args (o ∷ n ∷ av) 0 >>= send_winup hp s
