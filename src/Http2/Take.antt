-- ===== src/Http2/Take.antt =====
-- The commands of src/vtc_http2.c that take frames from the queue of a stream: rxhdrs, rxcont, rxdata, rxpush,
-- rxreq and rxresp, and those for one frame. `coming` has the frames of the queue and those that arrive
-- while a command waits, the oldest first; behind them the connection has ended, and `rxstuff` finds none.
-- It is assumed that a wait ends only by what it waits for.
pub mod Message
use vtest.Base.{
  ℕ, suc, ◌+◌, ◌/◌, ◌%◌, ◌^◌, List, [], ◌∷◌, Bytes, codes, map, get_or, Bool, true, false, not,
  ◌&&◌, ◌||◌, ◌==◌, ltb, if◌then◌else◌, Option, none, some, Outcome, ret, aborted, undefined, ◌>>=◌,
}
use vtest.Base.Int.{ℤ, pos, negsuc, ◌+ℤ◌, ◌-ℤ◌}
use vtest.Http2.Frame.{Frame, Meta}
use vtest.Http2.State.{Http, Stream, has_flag}
use vtest.Macros.{same_text}

-- What the commands work on; `last` is `s->frame`.
pub record Rx : Type 0 where
  pub hp : Http
  pub s : Stream
  pub last : Option Frame
  pub coming : List Frame

-- The frames from one command to the next: the last one taken, and those to come
abbrev pub Taken : Type 0
Taken = Option Frame × List Frame

-- CHKFRAME
unfoldable pub check_frame {ℓ} : {A : Type ℓ} → Frame → ℕ → Outcome A → Outcome A
check_frame f wanted next = if f.type == wanted then next else aborted

-- The loop of rxhdrs, rxcont, rxdata and rxpush: the type of the first frame and of the others, how many
-- frames at least, the flag for `-all`, whether it was given, and how many were taken
pub rx_loop : ℕ → ℕ → ℕ → ℕ → Bool → ℕ → List Frame → Outcome Taken
rx_loop expect others times bit loop rcv [] = ret (none, [])
rx_loop expect others times bit loop rcv (f ∷ fs) =
    let more = rx_loop others others times bit loop (rcv + 1) fs in
    let more_wanted = ltb (rcv + 1) times || (loop && not (has_flag f.flags bit)) in
    check_frame f expect (if more_wanted then more else ret (some f, fs))

-- The arguments -some and -all: `times` and `loop`
pub record Wanted : Type 0 where
  pub times : ℕ
  pub loop : Bool

abbrev pub one_frame : Wanted
one_frame = record { times = 1; loop = false }

-- The number of frames, as an unsigned long, which must not be 0
pub some_frames : ℕ × Bytes → Outcome ℕ
some_frames (n, []) = if n == 0 then aborted else ret n
some_frames (n, c ∷ cs) = aborted

module _ (strtoul0 : Bytes → ℕ × Bytes) where
  -- The arguments of rxhdrs and rxpush; with `missing` for -some without a number, those of rxdata too.
  pub rx_args : Outcome Wanted → List Bytes → Wanted → Outcome Wanted
  rx_args missing [] w = ret w
  rx_args missing (o ∷ []) w =
      if same_text o (codes "-some")
      then missing
      else if same_text o (codes "-all")
      then ret (record w { loop = true })
      else aborted
  rx_args missing (o ∷ n ∷ av) w =
      let counted = some_frames (strtoul0 n) >>= λ t. rx_args missing av (record w { times = t }) in
      let all = rx_args missing (n ∷ av) (record w { loop = true }) in
      if same_text o (codes "-some")
      then counted
      else if same_text o (codes "-all")
      then all
      else aborted

  -- The arguments of rxcont, which reads the number from the word -some itself
  pub rxcont_args : List Bytes → Wanted → Outcome Wanted
  rxcont_args [] w = ret w
  rxcont_args (o ∷ av) w =
      let counted = some_frames (strtoul0 o) >>= λ t. rxcont_args av (record w { times = t }) in
      let all = rxcont_args av (record w { loop = true }) in
      if same_text o (codes "-some")
      then counted
      else if same_text o (codes "-all")
      then all
      else aborted

  -- The state after a loop
  abbrev pub taken : Rx → Taken → Rx
  taken rx (last, coming) = record rx { last = last; coming = coming }

  unfoldable pub cmd_rxhdrs : List Bytes → Rx → Outcome Rx
  cmd_rxhdrs av rx = do
    w ← rx_args aborted av one_frame
    t ← rx_loop 1 9 w.times 4 w.loop 0 rx.coming
    ret (taken rx t)

  unfoldable pub cmd_rxcont : List Bytes → Rx → Outcome Rx
  cmd_rxcont av rx = do
    w ← rxcont_args av one_frame
    t ← rx_loop 9 9 w.times 4 w.loop 0 rx.coming
    ret (taken rx t)

  unfoldable pub cmd_rxdata : List Bytes → Rx → Outcome Rx
  cmd_rxdata av rx = do
    w ← rx_args undefined av one_frame
    t ← rx_loop 0 0 w.times 1 w.loop 0 rx.coming
    ret (taken rx t)

  -- Where no frame comes, `s->frame` is what `rxstuff` left: the one from before, or none once a frame
  -- was taken.
  abbrev pub kept_last : Rx → Option Frame
  kept_last rx = elim rx.coming [ [] ↦ rx.last | f ∷ fs ↦ none ]

  abbrev pub pushed : Rx → Taken → Rx
  pushed rx (none, coming) = record rx { last = kept_last rx; coming = coming }
  pushed rx (some f, coming) = record rx { last = some f; coming = coming }

  unfoldable pub cmd_rxpush : List Bytes → Rx → Outcome Rx
  cmd_rxpush av rx = do
    w ← rx_args aborted av one_frame
    t ← rx_loop 5 9 w.times 4 w.loop 0 rx.coming
    ret (pushed rx t)

-- The loops of cmd_rxmsg. Each gives none where the frames end.
pub rxmsg_data : List Frame → Outcome Taken
rxmsg_data [] = ret (none, [])
rxmsg_data (f ∷ fs) =
    let more = rxmsg_data fs in
    check_frame f 0 (if has_flag f.flags 1 then ret (some f, fs) else more)

-- Behind the header block: the data, unless the headers ended the stream
pub rxmsg_body : Bool → Frame → List Frame → Outcome (Option Taken)
rxmsg_body end_stream f fs =
    if end_stream then ret (some (some f, fs)) else rxmsg_data fs >>= λ t. ret (some t)

pub rxmsg_conts : Bool → List Frame → Outcome (Option Taken)
rxmsg_conts end_stream [] = ret none
rxmsg_conts end_stream (f ∷ fs) =
    let more = rxmsg_conts end_stream fs in
    check_frame f 9 (if has_flag f.flags 4 then rxmsg_body end_stream f fs else more)

pub rxmsg_headers : Frame → List Frame → Outcome (Option Taken)
rxmsg_headers f fs =
    let end_stream = has_flag f.flags 1 in
    check_frame f 1
      (if has_flag f.flags 4 then rxmsg_body end_stream f fs else rxmsg_conts end_stream fs)

pub rxmsg_loop : List Frame → Outcome (Option Taken)
rxmsg_loop [] = ret none
rxmsg_loop (f ∷ fs) = let more = rxmsg_loop fs in if f.type == 8 then more else rxmsg_headers f fs

-- `cmd_rxmsg`, for rxreq on a server or rxresp on a client. Where the frames end before the data,
-- `s->frame` is what `rxstuff` left.
unfoldable pub cmd_rxmsg : Bool → Rx → Outcome Rx
unfolding rxmsg_loop rxmsg_headers rxmsg_conts rxmsg_body rxmsg_data
cmd_rxmsg for_server rx =
    let run = rxmsg_loop rx.coming >>= λ t. ret (elim t [
      | none ↦ record rx { last = elim rx.coming [ [] ↦ rx.last | f ∷ fs ↦ none ]; coming = [] }
      | some (last, coming) ↦ record rx { last = last; coming = coming }
    ]) in
    if for_server then (if rx.hp.sfd then run else aborted) else if rx.hp.sfd then aborted else run

-- A frame of the type that is wanted. Some commands want one, and for others none is enough.
unfoldable pub one_of : ℕ → Outcome Rx → (Frame → List Frame → Outcome Rx) → List Frame → Outcome Rx
one_of type missing got [] = missing
one_of type missing got (f ∷ fs) = check_frame f type (got f fs)

abbrev pub next_frame : Rx → Frame → List Frame → Rx
next_frame rx f fs = record rx { last = some f; coming = fs }

-- RXFUNC: cmd_rxrst, cmd_rxping and cmd_rxgoaway are for the types 3, 6 and 7.
unfoldable pub cmd_rx : ℕ → Rx → Outcome Rx
unfolding one_of
cmd_rx type rx =
    one_of type (ret (record rx { last = none })) (λ f fs. ret (next_frame rx f fs)) rx.coming

-- `cmd_rxprio` does nothing where priorities are switched off.
unfoldable pub cmd_rxprio : Bool → Rx → Outcome Rx
cmd_rxprio no_rfc7540_priorities rx = if no_rfc7540_priorities then ret rx else cmd_rx 2 rx

unfoldable pub cmd_rxframe : Rx → Outcome Rx
cmd_rxframe rx = elim rx.coming [
  | [] ↦ aborted
  | f ∷ fs ↦ ret (record rx { last = none; coming = fs })
]

-- The credit of a WINDOW_UPDATE frame
pub credit : Rx → Meta → Outcome Rx
credit rx (Meta.winup_size n) =
    let hp = rx.hp in
    let s = rx.s in
    ret (record rx {
      hp = if s.id == 0 then record hp { h2_win_peer = hp.h2_win_peer +ℤ pos n } else hp;
      s = record s { win_peer = s.win_peer +ℤ pos n };
    })
credit rx _ = undefined

unfoldable pub cmd_rxwinup : Rx → Outcome Rx
unfolding one_of credit
cmd_rxwinup rx = one_of 8 aborted (λ f fs. credit (next_frame rx f fs) f.md) rx.coming

abbrev pub peer_grown : ℕ → ℕ → Stream → Stream
peer_grown val init s = record s { win_peer = s.win_peer +ℤ (pos val -ℤ pos init) }

-- SETTINGS_INITIAL_WINDOW_SIZE: a negative value has no meaning as a uint32_t.
unfoldable pub initial_window : Rx → Option ℤ → Outcome Rx
initial_window rx none = ret rx
initial_window rx (some (negsuc n)) = undefined
initial_window rx (some (pos val)) =
    let hp = rx.hp in
    ret (record rx {
      hp = record hp {
        streams = map (peer_grown val hp.win_peer_init) hp.streams;
        win_peer_init = val;
      };
      s = peer_grown val hp.win_peer_init rx.s;
    })

unfoldable pub take_settings : Rx → Meta → Outcome Rx
take_settings rx (Meta.settings table) = initial_window rx (get_or table 4 none)
take_settings rx _ = undefined

unfoldable pub cmd_rxsettings : Rx → Outcome Rx
unfolding one_of take_settings initial_window
cmd_rxsettings rx = one_of 4 aborted (λ f fs. take_settings (next_frame rx f fs) f.md) rx.coming
