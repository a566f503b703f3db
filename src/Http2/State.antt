-- ===== src/Http2/State.antt =====
-- The state that the frame layer keeps of a connection and of its streams: `struct stream` and
-- `struct http` in src/vtc_http2.c and src/vtc_http.h, as far as frames that arrive change it.
use vtest.Base.{ℕ, List, [], ◌∷◌, Bytes, Bool, not, ◌&&◌, ◌==◌, if◌then◌else◌, map, ◌/◌, ◌%◌, ◌++◌}
use vtest.Base.Int.{ℤ, pos}
use vtest.Hpack.Types.{HpkHdr, HpkCtx}
use vtest.Http2.Frame.{Frame}
use vtest.Hpack.Table.{new_ctx}

-- struct stream. The 64-bit windows are integers: they do not come near the ends of their range. `req`
-- and `resp` are the slots that have been used since `clean_headers`, and `fq` has the newest frame
-- first.
pub record Stream : Type 0 where
  pub id : ℕ
  pub win_self : ℤ
  pub win_peer : ℤ
  pub body : Bytes
  pub dependency : ℕ
  pub weight : ℤ
  pub req : List HpkHdr
  pub resp : List HpkHdr
  pub fq : List Frame
  pub wf : Bool

-- struct http. `fatal` says whether `vtc_log` at the level `hp->fatal` ends the test, and `sfd` whether
-- this is a server. While a frame is parsed, its stream is an argument of its own, and what `streams` has
-- of it is put right afterwards. A window has its size, and the initial size for each stream.
pub record Http : Type 0 where
  pub fatal : Bool
  pub sfd : Bool
  pub wf : ℕ
  pub h2 : Bool
  pub h2_win_self : ℤ
  pub h2_win_peer : ℤ
  pub win_self_init : ℕ
  pub win_peer_init : ℕ
  pub streams : List Stream
  pub encctx : HpkCtx
  pub decctx : HpkCtx

-- `start_h2`
pub start_h2 : Bool → Bool → Http
start_h2 fatal sfd = record {
  fatal = fatal;
  sfd = sfd;
  wf = 0;
  h2 = Bool.true;
  h2_win_self = pos 65535;
  h2_win_peer = pos 65535;
  win_self_init = 65535;
  win_peer_init = 65535;
  streams = [];
  encctx = new_ctx 4096;
  decctx = new_ctx 4096;
}

-- `flags & bit`, for a single bit
abbrev pub has_flag : ℕ → ℕ → Bool
has_flag flags bit = flags / bit % 2 == 1

abbrev pub padded_flag : ℕ
padded_flag = 8

abbrev pub priority_flag : ℕ
priority_flag = 32

-- What lies behind `f->data`: the frame's bytes and the terminator that `receive_frame` adds, or
-- nothing for a frame with no data, whose pointer is NULL.
abbrev pub memory : Bytes → Bytes
memory [] = []
memory (b ∷ bs) = b ∷ bs ++ 0 ∷ []

abbrev pub is_null : Bytes → Bool
is_null [] = Bool.true
is_null (b ∷ bs) = Bool.false

-- A stream of `hp->streams` under the loop of `exclusive_stream_dependency`
abbrev pub depend_on : Stream → Stream → Stream
depend_on s target =
    if not (target.id == s.id) && (target.dependency == s.dependency)
    then record target { dependency = s.id }
    else target

unfoldable pub exclusive_stream_dependency : Http → Stream → Http
exclusive_stream_dependency hp s =
    if s.id == 0 then hp else record hp { streams = map (depend_on s) hp.streams }
