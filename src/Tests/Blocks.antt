-- ===== src/Tests/Blocks.antt =====
-- Header blocks at concrete fields and frames.
use vtest.Base.{
  ℕ, ◌≡◌, refl, List, [], ◌∷◌, Bytes, codes, length, map, true, false, none, ret, arith, take, drop,
}
use vtest.Base.Int.{pos}
use vtest.Hpack.Header.RoundTrip.{with_indexing, never_indexed}
use vtest.Hpack.HuffDecode.{Stbl}
use vtest.Hpack.Num.RoundTrip.{representation}
use vtest.Hpack.Table.Evict.{state}
use vtest.Hpack.Types.{HpkCtx}
use vtest.Http2.Frame.{Frame, Meta}
use vtest.Http2.Receive.Block.{Field, block, table_behind, header, decode_hdr-block}
use vtest.Http2.Receive.Collect.{IsDecoded}
use vtest.Http2.Receive.Fragments.{receive_frames, IsReady, receive_frames-fragments}
use vtest.Http2.Receive.{Receiver, decode_hdr, find_stream}
use vtest.Http2.State.{Stream}

abbrev no_codes : Stbl
no_codes = record {
  Tbl = Unit {0};
  tbl_0 = tt;
  is_tbl_0 = λ _. true;
  msk = λ _. 8;
  syms = λ _ _. record { csm = 8; chr = 0; nxt = none };
}

abbrev method : Field
method = (with_indexing, codes ":method", codes "GET")

abbrev others : List Field
others = (never_indexed, codes "cookie", codes "x=1") ∷ []

abbrev table : HpkCtx
table = state 4096 []

decode_hdr-block_example :
    decode_hdr no_codes true table [] (block (method ∷ others))
    ≡ ret (table_behind table (method ∷ others), map header (method ∷ others))
decode_hdr-block_example =
    decode_hdr-block no_codes true table method others
      (record { counted = refl; bounded = omega arith; is_uint32 = omega arith }) (ground arith)
      (omega arith)

abbrev stream : Stream
stream = record {
  id = 1;
  win_self = pos 65535;
  win_peer = pos 65535;
  body = [];
  dependency = 0;
  weight = pos 16;
  req = [];
  resp = [];
  fq = [];
  wf = false;
}

abbrev receiver : Receiver
receiver = record {
  hp = record {
    fatal = true;
    sfd = false;
    wf = 1;
    h2 = true;
    h2_win_self = pos 65535;
    h2_win_peer = pos 65535;
    win_self_init = 65535;
    win_peer_init = 65535;
    streams = stream ∷ [];
    encctx = table;
    decctx = table;
  };
  expect_cont = 0;
  vsb = none;
  hdrs = none;
}

receiver-IsReady : IsReady 1 receiver
unfolding find_stream
receiver-IsReady = record {
  nothing_expected = refl;
  nothing_buffered = refl;
  nothing_chosen = refl;
  stream = stream;
  there = refl;
  wanted = λ _. omega arith;
}

abbrev frame : ℕ → ℕ → Bytes → Frame
frame type flags content = record {
  size = length content;
  stid = 1;
  type = type;
  flags = flags;
  content = content;
  md = Meta.unset;
}

-- The block cut behind its third byte
abbrev fragments : List Frame
fragments =
    frame 1 0 (take 3 (block (method ∷ others))) ∷ frame 9 4 (drop 3 (block (method ∷ others))) ∷ []

receive_frames-fragments_example :
    (r' : Receiver) × (receive_frames no_codes receiver fragments ≡ ret r')
    × IsDecoded
        (table_behind table (method ∷ others))
        (record { owner = 1; is_req = false })
        (map header (method ∷ others))
        r'
unfolding representation
receive_frames-fragments_example =
    receive_frames-fragments no_codes receiver 1 fragments (table_behind table (method ∷ others))
      (map header (method ∷ others)) receiver-IsReady (ground arith) decode_hdr-block_example
