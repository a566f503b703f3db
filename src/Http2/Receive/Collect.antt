-- ===== src/Http2/Receive/Collect.antt =====
-- One fragment of a header block: `receive_frame` of src/vtc_http2.c gathers it, or decodes what it has
-- gathered.
use vtest.Base.{
  ℕ, ◌^◌, ◌<◌, ◌≡◌, refl, sym, ap, ◌∙◌, List, [], ◌++◌, Bytes, length, Bool, true, false, none,
  some, ret, ◌>>=◌, ◌⊎◌,
}
use vtest.Hpack.HuffDecode.{Stbl}
use vtest.Hpack.Types.{HpkHdr, HpkCtx}
use vtest.Http2.Frame.{Frame}
use vtest.Http2.Parse.{parsed}
use vtest.Http2.Payload.{parse_hdr}
use vtest.Http2.Payload.Fragment.{parse_hdr-fragment}
use vtest.Http2.Receive.{
  Hdrs, Receiver, find_stream, set_slots, get_slots, slots_of, with_slots, queue, end_headers,
  continue_with, continue_headers, after_parse, decode_hdr,
}
use vtest.Http2.State.{Stream, has_flag, padded_flag, priority_flag}
use vtest.Http2.Receive.Streams.{
  find_stream-id, find_stream-put_stream, queue-IsQueued, with_slots-wf, slots_of-with_slots,
  set_slots-there, slots_kept,
}

-- A frame of a header block with nothing but its fragment: HEADERS or CONTINUATION, without padding or
-- priority fields, and END_HEADERS or not
abbrev pub IsFragment : ℕ → Bool → Frame → Type 0
IsFragment type ends f =
    (f.type ≡ type)
    × (has_flag f.flags padded_flag ≡ false)
    × (has_flag f.flags priority_flag ≡ false)
    × (has_flag f.flags 4 ≡ ends)
    × (f.size ≡ length f.content)
    × (f.size < 2 ^ 32)

-- The receiver has `vsb` of a block for the headers, their stream is there, and they are clean.
pub record IsCollecting (fatal : Bool) (ctx : HpkCtx) (h : Hdrs) (vsb : Bytes) (r : Receiver)
    : Type 0 where
  pub fatal_same : r.hp.fatal ≡ fatal
  pub ctx_same : r.hp.decctx ≡ ctx
  pub buffered : r.vsb ≡ some vsb
  pub chosen_hdrs : r.hdrs ≡ some h
  pub stream : Stream
  pub there : find_stream r.hp.streams h.owner ≡ some stream
  pub clean : slots_of h.is_req stream ≡ []
  pub wanted : stream.wf ≡ true → 0 < r.hp.wf

-- A header block is behind the receiver: the headers are those that were decoded.
pub record IsDecoded (ctx : HpkCtx) (h : Hdrs) (slots : List HpkHdr) (r : Receiver) : Type 0 where
  pub ctx_after : r.hp.decctx ≡ ctx
  pub nothing_expected : r.expect_cont ≡ 0
  pub nothing_buffered : r.vsb ≡ none
  pub nothing_chosen : r.hdrs ≡ none
  pub stream : Stream
  pub there : find_stream r.hp.streams h.owner ≡ some stream
  pub slots_there : slots_of h.is_req stream ≡ slots

module _ (tables : Stbl) (fatal : Bool) (ctx : HpkCtx) (h : Hdrs) where
  -- The frame's stream is the one of the headers.
  stream-id :
      (vsb : Bytes) (r : Receiver) (c : IsCollecting fatal ctx h vsb r) → c.stream.id ≡ h.owner
  stream-id vsb r c = find_stream-id r.hp.streams h.owner c.stream c.there

  -- What a fragment is parsed to, and the frame queued
  parse_fragment :
      (type : ℕ) (vsb : Bytes) (r : Receiver) (f : Frame) (ends : Bool)
      (c : IsCollecting fatal ctx h vsb r)
      → (type ≡ 1) ⊎ (type ≡ 9)
      → IsFragment type ends f
      → parse_hdr r.hp c.stream f vsb ≡ ret (parsed r.hp c.stream f, vsb ++ f.content)
  parse_fragment type vsb r f ends c either (ty, no_pad, no_prio, goes_on, sized, small) =
      let kind : (f.type ≡ 1) ⊎ (f.type ≡ 9) = rw ty either in
      parse_hdr-fragment r.hp c.stream f vsb kind no_pad no_prio sized small

  -- A fragment with more behind it goes to the buffer.
  pub continue_more :
      (type : ℕ) (vsb : Bytes) (r : Receiver) (f : Frame) (c : IsCollecting fatal ctx h vsb r)
      → (type ≡ 1) ⊎ (type ≡ 9)
      → IsFragment type false f
      → (r' : Receiver) × ((continue_headers tables r c.stream f >>= λ p. queue p.0 h.owner p.1)
          ≡ ret r')
        × IsCollecting fatal ctx h (vsb ++ f.content) r'
        × (r'.expect_cont ≡ h.owner)
  unfolding continue_headers continue_with
  continue_more type vsb r f c either frag =
      let s = c.stream in
      let id = stream-id vsb r c in
      let parsed_all = parse_fragment type vsb r f false c either frag in
      let goes_on = frag.3 in
      let put = find_stream-put_stream r.hp.streams s s h.owner c.there id in
      let r1 = record (after_parse r (parsed r.hp s f)) {
        expect_cont = s.id;
        vsb = some (vsb ++ f.content);
      } in
      let (r', done, q) = queue-IsQueued r1 h.owner s f put c.wanted in
      (
        r',
        ap (λ m. m >>= λ p. queue p.0 h.owner p.1)
              (λ i. continue_with tables r s f (c.chosen_hdrs i) (c.buffered i))
            ∙ rw (parsed_all, goes_on) done,
        record {
          fatal_same = q.fatal_kept ∙ c.fatal_same;
          ctx_same = q.ctx_kept ∙ c.ctx_same;
          buffered = q.vsb_kept;
          chosen_hdrs = q.hdrs_kept ∙ c.chosen_hdrs;
          stream = q.queued;
          there = q.found;
          clean = slots_kept h.is_req s q.queued q.req_kept q.resp_kept ∙ c.clean;
          wanted = λ e. let no = q.not_wanted in cc;
        },
        q.expects_kept ∙ id,
      )

  get_slots-there :
      (ss : List Stream) (s : Stream)
      → find_stream ss h.owner ≡ some s
      → get_slots h ss ≡ slots_of h.is_req s
  unfolding get_slots
  get_slots-there ss s there = rw (get_slots, there) refl

  end_headers-decoded :
      (r : Receiver) (s : Stream) (vsb : Bytes) (ctx' : HpkCtx) (slots : List HpkHdr)
      → r.hp.fatal ≡ fatal
      → r.hp.decctx ≡ ctx
      → find_stream r.hp.streams h.owner ≡ some s
      → slots_of h.is_req s ≡ []
      → decode_hdr tables fatal ctx [] vsb ≡ ret (ctx', slots)
      → end_headers tables r h vsb
        ≡ ret (record {
          hp = record r.hp { decctx = ctx'; streams = set_slots h slots r.hp.streams };
          expect_cont = 0;
          vsb = none;
          hdrs = none;
        })
  unfolding end_headers
  end_headers-decoded r s vsb ctx' slots same_fatal same_ctx there clean done =
      let got = get_slots-there r.hp.streams s there ∙ clean in
      let whole : decode_hdr tables r.hp.fatal r.hp.decctx (get_slots h r.hp.streams) vsb
          ≡ ret (ctx', slots) =
        (λ i. decode_hdr tables (same_fatal i) (same_ctx i) (got i) vsb) ∙ done in
      rw (end_headers, whole) refl

  -- The last fragment: what was gathered is decoded.
  pub continue_last :
      (type : ℕ) (vsb : Bytes) (r : Receiver) (f : Frame) (c : IsCollecting fatal ctx h vsb r)
      (ctx' : HpkCtx) (slots : List HpkHdr)
      → (type ≡ 1) ⊎ (type ≡ 9)
      → IsFragment type true f
      → decode_hdr tables fatal ctx [] (vsb ++ f.content) ≡ ret (ctx', slots)
      → (r' : Receiver) × ((continue_headers tables r c.stream f >>= λ p. queue p.0 h.owner p.1)
          ≡ ret r')
        × IsDecoded ctx' h slots r'
  unfolding continue_headers continue_with
  continue_last type vsb r f c ctx' slots either frag done =
      let s = c.stream in
      let id = stream-id vsb r c in
      let parsed_all = parse_fragment type vsb r f true c either frag in
      let ends = frag.3 in
      let put = find_stream-put_stream r.hp.streams s s h.owner c.there id in
      let r1 = record (after_parse r (parsed r.hp s f)) {
        expect_cont = s.id;
        vsb = some (vsb ++ f.content);
      } in
      let ended =
        end_headers-decoded r1 s (vsb ++ f.content) ctx' slots c.fatal_same c.ctx_same put c.clean
          done in
      let r2 : Receiver = record {
        hp = record r1.hp { decctx = ctx'; streams = set_slots h slots r1.hp.streams };
        expect_cont = 0;
        vsb = none;
        hdrs = none;
      } in
      let there = set_slots-there h r1.hp.streams s slots put in
      let wanted : (with_slots h.is_req s slots).wf ≡ true → 0 < r.hp.wf =
        λ e. c.wanted (sym (with_slots-wf h.is_req s slots) ∙ e) in
      let (r', queued, q) =
        queue-IsQueued r2 h.owner (with_slots h.is_req s slots) f there wanted in
      (
        r',
        ap (λ m. m >>= λ p. queue p.0 h.owner p.1)
              (λ i. continue_with tables r s f (c.chosen_hdrs i) (c.buffered i))
            ∙ rw (parsed_all, ends, ended) queued,
        record {
          ctx_after = q.ctx_kept;
          nothing_expected = q.expects_kept;
          nothing_buffered = q.vsb_kept;
          nothing_chosen = q.hdrs_kept;
          stream = q.queued;
          there = q.found;
          slots_there =
              slots_kept h.is_req (with_slots h.is_req s slots) q.queued q.req_kept q.resp_kept
              ∙ slots_of-with_slots h.is_req s slots;
        },
      )
