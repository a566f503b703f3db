-- ===== src/Tests/Commands.antt =====
-- Commands on frames of HTTP/2 at concrete arguments.
use vtest.Base.{
  ℕ, ◌≡◌, refl, List, [], ◌∷◌, ◌++◌, Bytes, codes, true, false, Option, none, some, ret, arith,
  length, inr, ◌-◌,
}
use vtest.Base.Int.{ℤ, pos}
use vtest.Hpack.Table.Evict.{state}
use vtest.Http2.Bytes.{vbe32enc}
use vtest.Http2.Frame.{Frame, Meta, write_frame_header}
use vtest.Http2.State.{Http, Stream}
use vtest.Http2.Parse.{parsed, parse_prio, parse_goaway}
use vtest.Http2.Parse.Settings.{encoded}
use vtest.Http2.Parse.Control.{dependents, exclusive_bit, debug_of}
use vtest.Http2.Payload.Priority.{Moves}
use vtest.Http2.Payload.{parse_data}
use vtest.Http2.Payload.Data.{delivered}
use vtest.Http2.Commands.{init_frame, cmd_txprio, cmd_txgoaway}
use vtest.Http2.Commands.Control.{cmd_txprio-parse_prio, cmd_txgoaway-parse_goaway}
use vtest.Http2.Commands.Settings.{cmd_txsettings}
use vtest.Http2.Commands.Settings.Received.{Choice, push, hdrtbl, settings_of}
use vtest.Http2.Commands.Bodies.{cmd_txdata}
use vtest.Http2.Commands.Bodies.Received.{spent, cmd_txdata-parse_data}
use vtest.Http2.Take.{Rx, cmd_rxmsg, cmd_rxsettings}
use vtest.Http2.Commands.Settings.Windows.{
  selves, peers, raised, InStep, cmd_txsettings-cmd_rxsettings-InStep,
}
use vtest.Http2.Take.Message.{cmd_rxmsg-message}

-- The number of a text of one digit
abbrev digit : Bytes → ℕ × Bytes
digit [] = (0, [])
digit (c ∷ cs) = (c - 48, cs)

abbrev connection : Http
connection = record {
  fatal = true;
  sfd = true;
  wf = 0;
  h2 = true;
  h2_win_self = pos 65535;
  h2_win_peer = pos 65535;
  win_self_init = 65535;
  win_peer_init = 65535;
  streams = [];
  encctx = state 4096 [];
  decctx = state 4096 [];
}

abbrev stream : ℕ → Stream
stream id = record {
  id = id;
  win_self = pos 65535;
  win_peer = pos 65535;
  body = [];
  dependency = 0;
  weight = pos 16;
  req = [];
  resp = [];
  fq = [];
  wf = false;
}

abbrev frame : ℕ → ℕ → Bytes → Frame
frame type flags content = record {
  size = length content;
  stid = 1;
  type = type;
  flags = flags;
  content = content;
  md = Meta.unset;
}

-- Stream 1 depends on stream 3 with the weight 5, and alone.
cmd_txprio-parse_prio_example :
    (hp' : Http) × (cmd_txprio digit connection
        (stream 1)
        (codes "-stream" ∷ codes "3" ∷ codes "-weight" ∷ codes "5" ∷ codes "-ex" ∷ [])
      ≡ ret (
        hp',
        record (stream 1) { weight = pos 5; dependency = 3 },
        write_frame_header (init_frame 2 5 1 0 []) ++ (128 ∷ 0 ∷ 0 ∷ 3 ∷ 5 ∷ []),
      ))
    × (parse_prio connection (stream 1) (frame 2 0 (128 ∷ 0 ∷ 0 ∷ 3 ∷ 5 ∷ []))
        ≡ ret (
            parsed
              (dependents true connection (record (stream 1) { dependency = 3 }))
              (record (stream 1) { dependency = 3; weight = pos 5 })
              (record (frame 2 0 (128 ∷ 0 ∷ 0 ∷ 3 ∷ 5 ∷ [])) {
                md = Meta.prio 3 (exclusive_bit true) 5;
              })))
    × Moves true 1 3 connection hp'
    × Moves true 1 3 connection (dependents true connection (record (stream 1) { dependency = 3 }))
unfolding vtest.Http2.Bytes.vbe32enc
cmd_txprio-parse_prio_example =
    cmd_txprio-parse_prio digit connection connection (stream 1) (stream 1)
      (frame 2 0 (128 ∷ 0 ∷ 0 ∷ 3 ∷ 5 ∷ [])) (codes "3") (codes "5") 3 5 true refl refl
      (omega arith) (omega arith) refl refl

abbrev farewell : Frame
farewell = frame 7 0 (0 ∷ 0 ∷ 0 ∷ 3 ∷ 0 ∷ 0 ∷ 0 ∷ 2 ∷ 98 ∷ 121 ∷ 101 ∷ [])

cmd_txgoaway-parse_goaway_example :
    (cmd_txgoaway digit connection (stream 0) (
        codes "-laststream"
        ∷ codes "3"
        ∷ codes "-err"
        ∷ codes "2"
        ∷ codes "-debug"
        ∷ codes "bye"
        ∷ [])
      ≡ ret (connection, stream 0, write_frame_header (init_frame 7 11 0 0 []) ++ farewell.content))
    × (parse_goaway connection (stream 0) farewell
        ≡ ret (
            parsed connection
              (stream 0)
              (record farewell { md = Meta.goaway 2 3 (debug_of (codes "bye")) })))
unfolding vtest.Http2.Bytes.vbe32enc vtest.Http2.Commands.read_err vtest.Http2.Commands.err_named
    vtest.Macros.same_text vtest.Http2.Commands.strtou32_check vtest.Http2.Commands.strtou32
    vtest.Http2.Commands.whole_number vtest.Http2.Commands.check_bits
cmd_txgoaway-parse_goaway_example =
    cmd_txgoaway-parse_goaway digit connection connection (stream 0) (stream 0) farewell (codes "3")
      (codes "2") (codes "bye") 3 2 refl refl (omega arith) (omega arith) refl refl

abbrev choices : List Choice
choices = push false ∷ hdrtbl (codes "7") ∷ push true ∷ []

abbrev choices_frame : Frame
choices_frame = frame 4 0 (encoded (settings_of digit choices))

abbrev sent_data : Frame
sent_data = frame 0 9 (2 ∷ 104 ∷ 105 ∷ 0 ∷ 0 ∷ [])

cmd_txdata-parse_data_example :
    (cmd_txdata digit connection
        (stream 1)
        (codes "-data" ∷ codes "hi" ∷ codes "-pad" ∷ (0 ∷ 0 ∷ []) ∷ [])
      ≡ ret (
        (spent connection (stream 1) 5).0,
        (spent connection (stream 1) 5).1,
        write_frame_header (init_frame 0 5 1 9 []) ++ sent_data.content,
      ))
    × (parse_data connection (stream 1) sent_data
        ≡ ret (
            delivered connection (stream 1) (record sent_data { md = Meta.padded 2 }) (codes "hi")))
cmd_txdata-parse_data_example =
    cmd_txdata-parse_data digit connection connection (stream 1) (stream 1) sent_data 104 (105 ∷ [])
      (0 ∷ 0 ∷ []) (omega arith) refl refl refl (omega arith)

-- A window update, a HEADERS frame without an end, a CONTINUATION frame with it, and two DATA frames
abbrev frames : List Frame
frames =
    frame 8 0 []
    ∷ frame 1 0 []
    ∷ frame 9 4 []
    ∷ frame 0 0 (1 ∷ [])
    ∷ frame 0 1 (2 ∷ [])
    ∷ frame 6 0 []
    ∷ []

abbrev receiving : Rx
receiving = record { hp = connection; s = stream 1; last = none; coming = frames }

cmd_rxmsg-message_example :
    cmd_rxmsg true receiving
    ≡ ret (record receiving { last = some (frame 0 1 (2 ∷ [])); coming = frame 6 0 [] ∷ [] })
cmd_rxmsg-message_example =
    cmd_rxmsg-message true receiving (frame 8 0 [] ∷ []) (frame 9 4 [] ∷ [])
      (frame 0 0 (1 ∷ []) ∷ frame 0 1 (2 ∷ []) ∷ []) (frame 6 0 [] ∷ []) (frame 1 0 []) refl refl
      (refl, tt) refl (inr (refl, (refl, refl))) (inr (refl, (refl, refl, (refl, refl))))

-- A connection whose stream 1 is in its list, and a SETTINGS frame with a window of 9
abbrev with_stream : Http
with_stream = record connection { streams = stream 1 ∷ [] }

abbrev nine_table : List (Option ℤ)
nine_table = none ∷ none ∷ none ∷ none ∷ some (pos 9) ∷ []

abbrev nine : Frame
nine = record (frame 4 0 []) { md = Meta.settings nine_table }

abbrev other_end : Rx
other_end = record { hp = with_stream; s = stream 0; last = none; coming = nine ∷ [] }

cmd_txsettings-cmd_rxsettings-InStep_example :
    (hp' : Http) × (s' : Stream) × (bytes : Bytes) × (rx' : Rx) × (cmd_txsettings digit with_stream
        (stream 0)
        (codes "-winsize" ∷ codes "9" ∷ [])
      ≡ ret (hp', s', bytes))
    × (cmd_rxsettings other_end ≡ ret rx')
    × (selves hp'.streams ≡ raised 65535 9 (pos 65535 ∷ []))
    × (s'.win_self ≡ pos 9)
    × (peers rx'.hp.streams ≡ raised 65535 9 (pos 65535 ∷ []))
    × (rx'.s.win_peer ≡ pos 9)
    × (hp'.win_self_init ≡ 9)
    × (rx'.hp.win_peer_init ≡ 9)
    × InStep hp' s' rx'
unfolding vtest.Base.Int.◌+ℤ◌ vtest.Base.Int.◌-ℤ◌
cmd_txsettings-cmd_rxsettings-InStep_example =
    cmd_txsettings-cmd_rxsettings-InStep digit (codes "9") 9 with_stream (stream 0) other_end nine
      [] nine_table refl (omega arith) (record { initial = refl; streams = (refl, tt); own = refl })
      refl refl refl refl
