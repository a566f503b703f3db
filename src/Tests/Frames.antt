-- ===== src/Tests/Frames.antt =====
-- Frames of HTTP/2 at concrete inputs.
use vtest.Base.{
  drop, ℕ, ◌≡◌, refl, List, [], ◌∷◌, Bytes, Bool, true, false, Option, none, ret, arith, length,
  ◌<◌, get_or,
}
use vtest.Base.Int.{◌+ℤ◌, ℤ, pos}
use vtest.Http2.Frame.{Frame, Meta, read_frame_header}
use vtest.Hpack.Table.Evict.{IsValid, state}
use vtest.Http2.Parse.Settings.{Setting, encoded, resized, last_value, parse_settings-last_value}
use vtest.Http2.Parse.{parse_settings, parsed}
use vtest.Http2.Payload.Headers.{number, prioritised, reordered, parse_hdr-padded_priority}
use vtest.Http2.Payload.Priority.{Moves, IsChar, parse_hdr-Moves}
use vtest.Http2.Payload.{parse_hdr}
use vtest.Http2.Write.{write_frame, charge, write_frame-read_frame_header}
use vtest.Http2.State.{Http, Stream}

abbrev connection : Bool → Http
connection fatal = record {
  fatal = fatal;
  sfd = false;
  wf = 0;
  h2 = true;
  h2_win_self = pos 65535;
  h2_win_peer = pos 65535;
  win_self_init = 65535;
  win_peer_init = 65535;
  streams = [];
  encctx = state 4096 [];
  decctx = state 4096 [];
}

abbrev stream : ℕ → Stream
stream id = record {
  id = id;
  win_self = pos 65535;
  win_peer = pos 65535;
  body = [];
  dependency = 0;
  weight = pos 16;
  req = [];
  resp = [];
  fq = [];
  wf = false;
}

abbrev frame : ℕ → ℕ → Bytes → Frame
frame type flags content = record {
  size = length content;
  stid = 1;
  type = type;
  flags = flags;
  content = content;
  md = Meta.unset;
}

abbrev padded_frame : Frame
padded_frame = frame 0 8 (2 ∷ 7 ∷ 8 ∷ 0 ∷ 0 ∷ [])

abbrev padded_block : Frame
padded_block = frame 1 12 (1 ∷ 130 ∷ 0 ∷ [])

-- Stream 1 gets an exclusive dependency on stream 3, on which stream 5 depends.
abbrev siblings : Http
siblings = record (connection true) { streams = record (stream 5) { dependency = 3 } ∷ [] }

abbrev exclusive_block : Frame
exclusive_block = frame 1 36 (128 ∷ 0 ∷ 0 ∷ 3 ∷ 200 ∷ 130 ∷ [])

parse_hdr-Moves_example :
    (hp' : Http) × (z : ℤ) × (parse_hdr siblings (stream 1) exclusive_block []
      ≡ ret
          (parsed hp' (record (stream 1) { dependency = 3; weight = z }) exclusive_block, 130 ∷ []))
    × Moves true 1 3 siblings hp'
    × IsChar 200 z
unfolding vtest.Http2.Bytes.vbe32enc
parse_hdr-Moves_example =
    parse_hdr-Moves siblings (stream 1) exclusive_block [] 3 200 true (130 ∷ []) refl refl refl
      (omega arith) (omega arith) refl refl (omega arith)

abbrev both_block : Frame
both_block = frame 1 44 (1 ∷ 0 ∷ 0 ∷ 0 ∷ 3 ∷ 15 ∷ 130 ∷ 0 ∷ [])

parse_hdr-padded_priority_example :
    parse_hdr (connection true) (stream 1) both_block []
    ≡ ret (
      parsed
          (reordered (connection true) (prioritised (stream 1) (number 1 0 0 0) 3) (number 1 0 0 0))
          (prioritised (stream 1) (number 1 0 0 0) 3)
          (record both_block { md = Meta.padded 1 }),
      130 ∷ [],
    )
parse_hdr-padded_priority_example =
    parse_hdr-padded_priority (connection true) (stream 1) both_block [] 0 0 0 3 15 (130 ∷ [])
      (0 ∷ []) refl refl refl refl refl (omega arith)

-- The table's bound is set twice, and a window size once.
abbrev settings : List Setting
settings = (1, 100) ∷ (4, 65535) ∷ (1, 200) ∷ []

abbrev settings_frame : Frame
settings_frame = frame 4 0 (encoded settings)

write_frame-read_frame_header_example :
    (hp' : Http) × (s' : Stream) × (bytes : Bytes) × (write_frame
        (connection true)
        (stream 1)
        (frame 0 1 (7 ∷ 8 ∷ []))
      ≡ ret (hp', s', bytes))
    × (read_frame_header (frame 0 0 []) bytes
        ≡ ret (record (frame 0 0 []) { size = 2; type = 0; flags = 1; stid = 1 }))
    × (drop 9 bytes ≡ 7 ∷ 8 ∷ [])
    × (s'.win_peer +ℤ pos (charge (frame 0 1 (7 ∷ 8 ∷ []))) ≡ pos 65535)
    × (hp'.h2_win_peer +ℤ pos (charge (frame 0 1 (7 ∷ 8 ∷ []))) ≡ pos 65535)
write_frame-read_frame_header_example =
    write_frame-read_frame_header (connection true) (stream 1) (frame 0 1 (7 ∷ 8 ∷ []))
      (frame 0 0 []) (omega arith) (omega arith) (omega arith) (omega arith) refl

parse_settings-last_value_example :
    (table : List (Option ℤ)) × (parse_settings (connection true) (stream 0) settings_frame
      ≡ ret (
          parsed
            (record (connection true) { encctx = resized settings (state 4096 []) })
            (stream 0)
            (record settings_frame { md = Meta.settings table })))
    × IsValid (resized settings (state 4096 []))
    × ((t : ℕ) → t < 18 → get_or table t none ≡ last_value settings t none)
parse_settings-last_value_example =
    parse_settings-last_value (connection true) (stream 0) settings_frame settings
      ((omega arith, omega arith), ((omega arith, omega arith), ((omega arith, omega arith), tt)))
      (record { counted = refl; bounded = omega arith; is_uint32 = omega arith }) refl refl refl
