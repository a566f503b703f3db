-- ===== src/Http2/Receive.antt =====
-- The thread that receives frames: `receive_frame` and `decode_hdr` of src/vtc_http2.c. A frame is read
-- from the connection, parsed for its stream, and queued there.
pub mod Block
pub mod Streams
pub mod Collect
pub mod Fragments
use vtest.Base.{
  ℕ, zero, suc, ◌+◌, ◌-◌, List, [], ◌∷◌, ◌++◌, Bytes, length, replicate, Bool, true, false, not,
  ◌&&◌, ◌||◌, ◌==◌, ltb, leb, if◌then◌else◌, Option, none, some, Outcome, ret, aborted, undefined,
  ◌>>=◌,
}
use vtest.Hpack.Header.{hpk_dec_hdr, DecHdr}
use vtest.Hpack.HuffDecode.{Stbl}
use vtest.Hpack.Types.{
  HpkResult, hpk_more, hpk_done, hpk_err, HpkIndexed, hpk_unset, HpkHdr, HpkCtx, Cursor, no_txt,
}
use vtest.Http2.Frame.{Frame, Meta, read_frame_header}
use vtest.Http2.Parse.{
  Parsed, parsed, parse_prio, parse_rst, parse_settings, parse_ping, parse_goaway, parse_winup,
}
use vtest.Http2.Payload.{parse_data, parse_hdr}
use vtest.Http2.Read.{Event, get_bytes}
use vtest.Http2.State.{Http, Stream, has_flag}

abbrev pub max_hdr : ℕ
max_hdr = 64

abbrev unset_hdr : HpkHdr
unset_hdr = record { key = no_txt; value = no_txt; t = hpk_unset; i = 0 }

abbrev is_unset : HpkIndexed → Bool
is_unset hpk_unset = true
is_unset _ = false

-- The slots before the first that is unset
pub used_slots : List HpkHdr → List HpkHdr
used_slots [] = []
used_slots (h ∷ hs) = let more = h ∷ used_slots hs in if is_unset h.t then [] else more

-- What the loop of `decode_hdr` leaves: the last result, the tables, and the slots, with their number
-- as `n` counts them.
pub record DecodedHdrs : Type 0 where
  pub result : HpkResult
  pub ctx : HpkCtx
  pub slots : List HpkHdr
  pub n : ℕ

abbrev decoded : HpkResult → HpkCtx → List HpkHdr → ℕ → DecodedHdrs
decoded r ctx slots n = record { result = r; ctx = ctx; slots = slots; n = n }

-- The loop, while slots are free
pub decode_slots : Stbl → ℕ → HpkResult → HpkCtx → Cursor → List HpkHdr → Outcome DecodedHdrs
decode_slots s zero r ctx it slots = ret (decoded r ctx slots (length slots))
decode_slots s (suc free) r ctx it slots = do
  d ← hpk_dec_hdr s ctx it unset_hdr
  let slots' = slots ++ d.header ∷ []
  let again = decode_slots s free d.result d.ctx d.at slots'
  elim d.result [
    | hpk_err ↦ ret (decoded hpk_err d.ctx slots' (length slots))
    | hpk_done ↦ ret (decoded hpk_done d.ctx slots' (length slots'))
    | hpk_more ↦ again
  ]

abbrev is_done : HpkResult → Bool
is_done hpk_done = true
is_done _ = false

-- What `decode_hdr` says of a header list that failed or has filled all slots
pub report : Bool → DecodedHdrs → Outcome (HpkCtx × List HpkHdr)
report fatal d =
    if (not (is_done d.result) || d.n == max_hdr) && fatal then aborted else ret (d.ctx, d.slots)

pub decode_hdr : Stbl → Bool → HpkCtx → List HpkHdr → Bytes → Outcome (HpkCtx × List HpkHdr)
decode_hdr s fatal ctx h [] = ret (ctx, h)
decode_hdr s fatal ctx h (b ∷ bs) =
    let slots = used_slots h in
    decode_slots s (max_hdr - length slots) hpk_err ctx (record { before = []; after = b ∷ bs })
      slots
    >>= report fatal

-- The headers that `hdrs` points to: those of the stream with the number, its `req` or its `resp`
pub record Hdrs : Type 0 where
  pub owner : ℕ
  pub is_req : Bool

-- The variables of `receive_frame`
pub record Receiver : Type 0 where
  pub hp : Http
  pub expect_cont : ℕ
  pub vsb : Option Bytes
  pub hdrs : Option Hdrs

abbrev pub slots_of : Bool → Stream → List HpkHdr
slots_of true s = s.req
slots_of false s = s.resp

abbrev pub with_slots : Bool → Stream → List HpkHdr → Stream
with_slots true s hs = record s { req = hs }
with_slots false s hs = record s { resp = hs }

-- VTAILQ_FOREACH to the stream of the frame
unfoldable pub find_stream : List Stream → ℕ → Option Stream
find_stream [] id = none
find_stream (s ∷ ss) id = let later = find_stream ss id in if s.id == id then some s else later

pub put_stream : Stream → List Stream → List Stream
put_stream s [] = []
put_stream s (t ∷ ts) = let later = t ∷ put_stream s ts in if t.id == s.id then s ∷ ts else later

-- A change of the headers of the stream with the number
pub set_slots : Hdrs → List HpkHdr → List Stream → List Stream
set_slots h hs [] = []
set_slots h hs (t ∷ ts) =
    let later = t ∷ set_slots h hs ts in
    if t.id == h.owner then with_slots h.is_req t hs ∷ ts else later

pub get_slots : Hdrs → List Stream → List HpkHdr
get_slots h ss = elim (find_stream ss h.owner) [ none ↦ [] | some s ↦ slots_of h.is_req s ]

abbrev pub with_streams : Receiver → List Stream → Receiver
with_streams r ss = record r { hp = record r.hp { streams = ss } }

-- The end of a round: the frame goes to the head of its stream's queue, and who waits for it is woken.
pub queue : Receiver → ℕ → Frame → Outcome Receiver
queue r id f = elim (find_stream r.hp.streams id) [
  | none ↦ aborted
  | some s ↦
      let s' = record s { fq = f ∷ s.fq; wf = false } in
      let r' = with_streams r (put_stream s' r.hp.streams) in
      if not s.wf
      then ret r'
      else if r.hp.wf == 0
      then aborted
      else ret (record r' { hp = record r'.hp { wf = r.hp.wf - 1 } })
]

-- What a parser leaves of the stream and of the connection
abbrev pub after_parse : Receiver → Parsed → Receiver
after_parse r p = record r { hp = record p.hp { streams = put_stream p.s p.hp.streams } }

-- The end of a header block: it is decoded into the headers that were chosen when it began.
pub end_headers : Stbl → Receiver → Hdrs → Bytes → Outcome Receiver
end_headers tables r h vsb = do
  (ctx, slots) ← decode_hdr tables r.hp.fatal r.hp.decctx (get_slots h r.hp.streams) vsb
  let r' = with_streams r (set_slots h slots r.hp.streams)
  ret (record r' { hp = record r'.hp { decctx = ctx }; expect_cont = 0; vsb = none; hdrs = none })

-- The part for CONTINUATION, with `hdrs` and `vsb`
pub continue_with :
    Stbl → Receiver → Stream → Frame → Option Hdrs → Option Bytes → Outcome (Receiver × Frame)
continue_with tables r s f none vsb = aborted
continue_with tables r s f (some h) none = aborted
continue_with tables r s f (some h) (some vsb) = do
  (p, vsb') ← parse_hdr r.hp s f vsb
  let r' = record (after_parse r p) { expect_cont = s.id; vsb = some vsb' }
  let ended = (do r'' ← end_headers tables r' h vsb'; ret (r'', p.f))
  if has_flag f.flags 4 then ended else ret (r', p.f)

-- The part for CONTINUATION, which the other header frames fall through to
pub continue_headers : Stbl → Receiver → Stream → Frame → Outcome (Receiver × Frame)
continue_headers tables r s f = continue_with tables r s f r.hdrs r.vsb

abbrev pub is_some {ℓ} : {A : Type ℓ} → Option A → Bool
is_some none = false
is_some (some a) = true

-- The part for HEADERS, which PUSH_PROMISE falls through to with the headers of the request
pub start_headers : Stbl → Receiver → Stream → Hdrs → Frame → Outcome (Receiver × Frame)
start_headers tables r s h f =
    let cleaned = record r { hdrs = some h; vsb = some [] } in
    let r' = with_streams cleaned (set_slots h [] r.hp.streams) in
    let s' = if h.owner == s.id then with_slots h.is_req s [] else s in
    if is_some r.vsb then aborted else continue_headers tables r' s' f

abbrev pub chosen : Option Hdrs → Hdrs → Hdrs
chosen none h = h
chosen (some old) h = old

abbrev parsed_by : Receiver → Outcome Parsed → Outcome (Receiver × Frame)
parsed_by r o = o >>= λ p. ret (after_parse r p, p.f)

-- The `switch` over the type of the frame
pub dispatch : Stbl → Receiver → Stream → Frame → Outcome (Receiver × Frame)
dispatch tables r s f =
    if f.type == 0
    then parsed_by r (parse_data r.hp s f)
    else if f.type == 5
    then start_headers tables r s (record { owner = s.id; is_req = true }) f
    else if f.type == 1
    then start_headers tables r s (chosen r.hdrs (record { owner = s.id; is_req = r.hp.sfd })) f
    else if f.type == 9
    then continue_headers tables r s f
    else if f.type == 2
    then parsed_by r (parse_prio r.hp s f)
    else if f.type == 3
    then parsed_by r (parse_rst r.hp s f)
    else if f.type == 4
    then parsed_by r (parse_settings r.hp s f)
    else if f.type == 6
    then parsed_by r (parse_ping r.hp s f)
    else if f.type == 7
    then parsed_by r (parse_goaway r.hp s f)
    else if f.type == 8
    then parsed_by r (parse_winup r.hp s f)
    else aborted

-- A frame that has been read, for a stream that is there
pub receive : Stbl → Receiver → Stream → Frame → Outcome Receiver
receive tables r s f =
    let handled = (do (r', f') ← dispatch tables r s f; queue r' s.id f') in
    if not (r.expect_cont == 0) && (not (f.type == 9) || not (r.expect_cont == s.id))
    then aborted
    else handled

-- The end of a round of the loop: it goes on; it waits for a wanted frame, for bytes or for a stream to
-- be there; or the thread has ended.
pub data Round : Type 0 where
  went_on : Receiver → List Event → Round
  no_wanted no_bytes : Round
  no_stream : Frame → Round
  ended : Round

abbrev fresh : Frame
fresh = record { size = 0; stid = 0; type = 0; flags = 0; content = []; md = Meta.unset }

-- A read that did not succeed: the thread ends, and the test where errors are fatal.
abbrev failed : Bool → Outcome Round
failed fatal = if fatal then aborted else ret ended

-- The body of the frame is there: the stream is looked up.
pub deliver : Stbl → Receiver → Frame → List Event → Outcome Round
deliver tables r f es = elim (find_stream r.hp.streams f.stid) [
  | none ↦ ret (no_stream f)
  | some s ↦ do r' ← receive tables r s f; ret (went_on r' es)
]

-- The body, if there is one, into a buffer of its size
pub read_body : Stbl → Receiver → Frame → List Event → Outcome Round
read_body tables r f es =
    let got = get_bytes es (replicate f.size 0) f.size in
    let body = elim got.result as (λ _. Outcome Round) [
      | none ↦ ret no_bytes
      | some ok ↦
          if ok == 0
          then failed r.hp.fatal
          else deliver tables r (record f { content = got.buf }) got.pending
    ] in
    if f.size == 0 then deliver tables r f es else body

-- A round of `receive_frame`, while `hp->h2` is set
pub receive_frame : Stbl → Receiver → List Event → Outcome Round
receive_frame tables r es =
    let got = get_bytes es (replicate 9 0) 9 in
    let header = elim got.result as (λ _. Outcome Round) [
      | none ↦ ret no_bytes
      | some ok ↦
          if ok == 0
          then failed r.hp.fatal
          else (read_frame_header fresh got.buf >>= λ f. read_body tables r f got.pending)
    ] in
    if not r.hp.h2 then ret ended else if r.hp.wf == 0 then ret no_wanted else header
