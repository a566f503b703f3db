-- ===== src/Http2/Receive/Fragments.antt =====
-- A header block in fragments: HEADERS and the CONTINUATION frames behind it, as `receive_frame` of
-- src/vtc_http2.c puts them together.
use vtest.Base.{
  ℕ, ◌<◌, ◌≡◌, refl, sym, ap, ◌∙◌, List, [], ◌∷◌, ◌++◌, append_assoc, append-nil, Bytes, Bool, true,
  false, not, ◌&&◌, ◌||◌, ◌==◌, none, some, Outcome, ret, aborted, ◌>>=◌, arith, ◌⊎◌, inl, inr,
}
use vtest.Hpack.HuffDecode.{Stbl}
use vtest.Hpack.Types.{HpkHdr, HpkCtx}
use vtest.Http2.Frame.{Frame}
use vtest.Http2.Receive.{
  Hdrs, Receiver, find_stream, set_slots, with_slots, chosen, is_some, queue, continue_headers,
  start_headers, dispatch, receive, decode_hdr,
}
use vtest.Http2.State.{Stream}
use vtest.Http2.Receive.Collect.{IsFragment, IsCollecting, IsDecoded, continue_more, continue_last}
use vtest.Http2.Receive.Streams.{
  find_stream-id, set_slots-there, with_slots-wf, slots_of-with_slots,
}

-- A frame that is there, and its stream too
receive_one : Stbl → Receiver → Frame → Outcome Receiver
receive_one tables r f = elim (find_stream r.hp.streams f.stid) [
  | none ↦ aborted
  | some s ↦ receive tables r s f
]

-- Frames that are there one after the other, with their streams: the thread waits for none.
pub receive_frames : Stbl → Receiver → List Frame → Outcome Receiver
receive_frames tables r [] = ret r
receive_frames tables r (f ∷ fs) = receive_one tables r f >>= λ r'. receive_frames tables r' fs

-- Frames of one header block for a stream: the first of the type, CONTINUATION behind it, and
-- END_HEADERS on the last
abbrev pub AreFragments : ℕ → ℕ → List Frame → Type 0
AreFragments type id [] = ⊥
AreFragments type id (f ∷ []) = (f.stid ≡ id) × IsFragment type true f
AreFragments type id (f ∷ g ∷ fs) =
    (f.stid ≡ id) × IsFragment type false f × AreFragments 9 id (g ∷ fs)

abbrev pub contents : List Frame → Bytes
contents [] = []
contents (f ∷ fs) = f.content ++ contents fs

dispatch-continuation :
    (tables : Stbl) (r : Receiver) (s : Stream) (f : Frame)
    → f.type ≡ 9
    → dispatch tables r s f ≡ continue_headers tables r s f
unfolding dispatch
dispatch-continuation tables r s f ty =
    let t0 : (f.type == 0) ≡ false = ground (arith, ty) in
    let t5 : (f.type == 5) ≡ false = ground (arith, ty) in
    let t1 : (f.type == 1) ≡ false = ground (arith, ty) in
    let t9 : (f.type == 9) ≡ true = ground (arith, ty) in simp (t0, t5, t1, t9) refl

dispatch-headers :
    (tables : Stbl) (r : Receiver) (s : Stream) (f : Frame)
    → f.type ≡ 1
    → dispatch tables r s f
      ≡ start_headers tables r s (chosen r.hdrs (record { owner = s.id; is_req = r.hp.sfd })) f
unfolding dispatch
dispatch-headers tables r s f ty =
    let t0 : (f.type == 0) ≡ false = ground (arith, ty) in
    let t5 : (f.type == 5) ≡ false = ground (arith, ty) in
    let t1 : (f.type == 1) ≡ true = ground (arith, ty) in simp (t0, t5, t1) refl

receive-dispatch :
    (tables : Stbl) (r : Receiver) (s : Stream) (f : Frame) (id : ℕ)
    → (r.expect_cont ≡ 0) ⊎ ((f.type ≡ 9) × (r.expect_cont ≡ s.id))
    → s.id ≡ id
    → receive tables r s f ≡ (dispatch tables r s f >>= λ p. queue p.0 id p.1)
unfolding receive
receive-dispatch tables r s f id expects same =
    let goes : (not (r.expect_cont == 0) && (not (f.type == 9) || not (r.expect_cont == s.id)))
        ≡ false =
      ground (arith, expects) in
    rw (receive, goes) (ap (λ k. dispatch tables r s f >>= λ p. queue p.0 k p.1) same)

receive_one-found :
    (tables : Stbl) (r : Receiver) (s : Stream) (f : Frame) (id : ℕ)
    → f.stid ≡ id
    → find_stream r.hp.streams id ≡ some s
    → receive_one tables r f ≡ receive tables r s f
unfolding receive_one
receive_one-found tables r s f id same there =
    let found = ap (find_stream r.hp.streams) same ∙ there in rw (receive_one, found) refl

-- The receiver once a header block has begun: nothing is in its buffer, and the headers are clean.
abbrev begun : Receiver → ℕ → Receiver
begun r id = record r {
  hp = record r.hp {
    streams = set_slots (record { owner = id; is_req = r.hp.sfd }) [] r.hp.streams;
  };
  hdrs = some (record { owner = id; is_req = r.hp.sfd });
  vsb = some [];
}

start_headers-begun :
    (tables : Stbl) (r : Receiver) (s : Stream) (f : Frame) (id : ℕ)
    → r.vsb ≡ none
    → s.id ≡ id
    → start_headers tables r s (record { owner = id; is_req = r.hp.sfd }) f
      ≡ continue_headers tables (begun r id) (with_slots r.hp.sfd s []) f
unfolding start_headers
start_headers-begun tables r s f id no_vsb same =
    let owns : (id == s.id) ≡ true = ground (arith, same) in
    let no_block : is_some r.vsb ≡ false = ap is_some no_vsb in simp (owns, no_block) refl

receive-continuation :
    (tables : Stbl) (r : Receiver) (s : Stream) (f : Frame) (id : ℕ)
    → f.type ≡ 9
    → r.expect_cont ≡ id
    → s.id ≡ id
    → receive tables r s f ≡ (continue_headers tables r s f >>= λ p. queue p.0 id p.1)
receive-continuation tables r s f id ty expects same =
    receive-dispatch tables r s f id (inr (ty, expects ∙ sym same)) same
    ∙ ap (λ o. o >>= λ p. queue p.0 id p.1) (dispatch-continuation tables r s f ty)

receive-headers :
    (tables : Stbl) (r : Receiver) (s : Stream) (f : Frame) (id : ℕ)
    → f.type ≡ 1
    → r.expect_cont ≡ 0
    → r.vsb ≡ none
    → r.hdrs ≡ none
    → s.id ≡ id
    → receive tables r s f ≡ (
        continue_headers tables (begun r id) (with_slots r.hp.sfd s []) f >>= λ p. queue p.0 id p.1)
receive-headers tables r s f id ty expects no_vsb no_hdrs same =
    let by_type = dispatch-headers tables r s f ty in
    let choice =
      ap (λ o. start_headers tables r s (chosen o (record { owner = s.id; is_req = r.hp.sfd })) f)
        no_hdrs in
    let owner =
      ap (λ k. start_headers tables r s (record { owner = k; is_req = r.hp.sfd }) f) same in
    receive-dispatch tables r s f id (inl expects) same
    ∙ ap (λ o. o >>= λ p. queue p.0 id p.1)
        (by_type ∙ choice ∙ owner ∙ start_headers-begun tables r s f id no_vsb same)

module _ (tables : Stbl) (fatal : Bool) (ctx : HpkCtx) (h : Hdrs) (ctx' : HpkCtx)
    (slots : List HpkHdr) where
  -- The CONTINUATION frames of a block that has begun
  continued :
      (fs : List Frame) (vsb : Bytes) (r : Receiver)
      → IsCollecting fatal ctx h vsb r
      → r.expect_cont ≡ h.owner
      → AreFragments 9 h.owner fs
      → decode_hdr tables fatal ctx [] (vsb ++ contents fs) ≡ ret (ctx', slots)
      → (r' : Receiver) × (receive_frames tables r fs ≡ ret r') × IsDecoded ctx' h slots r'
  unfolding receive_frames
  continued [] vsb r c expects frags done = elim frags [ ]
  continued (f ∷ []) vsb r c expects (there, frag) done =
      let id = find_stream-id r.hp.streams h.owner c.stream c.there in
      let all = rw (append-nil f.content) at done in
      let (r', ended, decoded) =
        continue_last tables fatal ctx h 9 vsb r f c ctx' slots (inr refl) frag all in
      let one =
        receive_one-found tables r c.stream f h.owner there c.there
        ∙ receive-continuation tables r c.stream f h.owner frag.0 expects id
        ∙ ended in
      (r', rw one refl, decoded)
  continued (f ∷ g ∷ fs) vsb r c expects (there, frag, frags) done =
      let id = find_stream-id r.hp.streams h.owner c.stream c.there in
      let (r1, more, c', expects') = continue_more tables fatal ctx h 9 vsb r f c (inr refl) frag in
      let one =
        receive_one-found tables r c.stream f h.owner there c.there
        ∙ receive-continuation tables r c.stream f h.owner frag.0 expects id
        ∙ more in
      let regrouped = append_assoc vsb f.content (contents (g ∷ fs)) in
      let (r', others, decoded) =
        continued (g ∷ fs) (vsb ++ f.content) r1 c' expects' frags (rw regrouped done) in
      (r', rw one others, decoded)

-- A receiver between header blocks, with the stream there; where its thread waits for a frame, the
-- receiver has counted that.
pub record IsReady (id : ℕ) (r : Receiver) : Type 0 where
  pub nothing_expected : r.expect_cont ≡ 0
  pub nothing_buffered : r.vsb ≡ none
  pub nothing_chosen : r.hdrs ≡ none
  pub stream : Stream
  pub there : find_stream r.hp.streams id ≡ some stream
  pub wanted : stream.wf ≡ true → 0 < r.hp.wf

abbrev collecting :
    (id : ℕ) (r : Receiver) (ready : IsReady id r)
    → IsCollecting r.hp.fatal r.hp.decctx (record { owner = id; is_req = r.hp.sfd }) [] (begun r id)
collecting id r ready =
    let h : Hdrs = record { owner = id; is_req = r.hp.sfd } in
    record {
      fatal_same = refl;
      ctx_same = refl;
      buffered = refl;
      chosen_hdrs = refl;
      stream = with_slots r.hp.sfd ready.stream [];
      there = set_slots-there h r.hp.streams ready.stream [] ready.there;
      clean = slots_of-with_slots r.hp.sfd ready.stream [];
      wanted = λ e. ready.wanted (sym (with_slots-wf r.hp.sfd ready.stream []) ∙ e);
    }

-- Between header blocks, a HEADERS frame and any number of CONTINUATION frames for a stream that is
-- there, with END_HEADERS on the last, no padding and no priority fields: if the fragments put together
-- decode to some headers, `receive_frame` takes all the frames, and the stream has these headers, as a
-- client's `resp` or a server's `req`. So the split does not matter. The decoder's table is the one that
-- decoding leaves, and the receiver is between header blocks again.
pub receive_frames-fragments :
    (tables : Stbl) (r : Receiver) (id : ℕ) (fs : List Frame) (ctx' : HpkCtx) (slots : List HpkHdr)
    → IsReady id r
    → AreFragments 1 id fs
    → decode_hdr tables r.hp.fatal r.hp.decctx [] (contents fs) ≡ ret (ctx', slots)
    → (r' : Receiver) × (receive_frames tables r fs ≡ ret r')
      × IsDecoded ctx' (record { owner = id; is_req = r.hp.sfd }) slots r'
unfolding receive_frames
receive_frames-fragments tables r id [] ctx' slots ready frags done = elim frags [ ]
receive_frames-fragments tables r id (f ∷ []) ctx' slots ready (there, frag) done =
    let h : Hdrs = record { owner = id; is_req = r.hp.sfd } in
    let same = find_stream-id r.hp.streams id ready.stream ready.there in
    let c = collecting id r ready in
    let (r', ended, decoded) =
      continue_last tables r.hp.fatal r.hp.decctx h 1 [] (begun r id) f c ctx' slots (inl refl) frag
        (rw (append-nil f.content) at done) in
    let one =
      receive_one-found tables r ready.stream f id there ready.there
      ∙ receive-headers tables r ready.stream f id frag.0 ready.nothing_expected
          ready.nothing_buffered ready.nothing_chosen same
      ∙ ended in
    (r', rw one refl, decoded)
receive_frames-fragments tables r id (f ∷ g ∷ fs) ctx' slots ready (there, frag, frags) done =
    let h : Hdrs = record { owner = id; is_req = r.hp.sfd } in
    let same = find_stream-id r.hp.streams id ready.stream ready.there in
    let c = collecting id r ready in
    let (r1, more, c', expects') =
      continue_more tables r.hp.fatal r.hp.decctx h 1 [] (begun r id) f c (inl refl) frag in
    let one =
      receive_one-found tables r ready.stream f id there ready.there
      ∙ receive-headers tables r ready.stream f id frag.0 ready.nothing_expected
          ready.nothing_buffered ready.nothing_chosen same
      ∙ more in
    let (r', others, decoded) =
      continued tables r.hp.fatal r.hp.decctx h ctx' slots (g ∷ fs) f.content r1 c' expects' frags
        done in
    (r', rw one others, decoded)
