-- ===== src/Http2/Receive/Streams.antt =====
-- Lookups of streams after a change of one of them, for Http2/Receive.
use vtest.Base.{
  ℕ, ◌-◌, ◌<◌, ◌≡◌, refl, ap, ◌∙◌, List, [], ◌∷◌, Bool, true, false, ◌==◌, some, ret, arith,
  Bool-cases, inl, inr,
}
use vtest.Hpack.Types.{HpkHdr}
use vtest.Http2.Frame.{Frame}
use vtest.Http2.Receive.{
  Hdrs, Receiver, find_stream, put_stream, set_slots, slots_of, with_slots, queue,
}
use vtest.Http2.State.{Stream}

-- The lookups after a change of one stream
pub find_stream-id :
    (ss : List Stream) (id : ℕ) (s : Stream) → find_stream ss id ≡ some s → s.id ≡ id
unfolding find_stream
find_stream-id [] id s h = cc
find_stream-id (t ∷ ts) id s h = elim (Bool-cases (t.id == id)) [
  | inl same ↦ let e : t ≡ s = (let h' = rw same at h in cc) in ground (arith, same, e)
  | inr other ↦ find_stream-id ts id s (rw other at h)
]

pub find_stream-put_stream :
    (ss : List Stream) (s t : Stream) (id : ℕ)
    → find_stream ss id ≡ some s
    → t.id ≡ id
    → find_stream (put_stream t ss) id ≡ some t
unfolding find_stream put_stream
find_stream-put_stream [] s t id h e = cc
find_stream-put_stream (u ∷ us) s t id h e = elim (Bool-cases (u.id == id)) [
  | inl same ↦ ground (arith, same, e)
  | inr other ↦
      let h' = rw other at h in ground (arith, other, e, find_stream-put_stream us s t id h' e)
]

-- What queueing a frame leaves of the receiver and of the stream
pub record IsQueued (r : Receiver) (id : ℕ) (s : Stream) (r' : Receiver) : Type 0 where
  pub fatal_kept : r'.hp.fatal ≡ r.hp.fatal
  pub ctx_kept : r'.hp.decctx ≡ r.hp.decctx
  pub expects_kept : r'.expect_cont ≡ r.expect_cont
  pub vsb_kept : r'.vsb ≡ r.vsb
  pub hdrs_kept : r'.hdrs ≡ r.hdrs
  pub queued : Stream
  pub found : find_stream r'.hp.streams id ≡ some queued
  pub req_kept : queued.req ≡ s.req
  pub resp_kept : queued.resp ≡ s.resp
  pub not_wanted : queued.wf ≡ false

pub queue-IsQueued :
    (r : Receiver) (id : ℕ) (s : Stream) (f : Frame)
    → find_stream r.hp.streams id ≡ some s
    → (s.wf ≡ true → 0 < r.hp.wf)
    → (r' : Receiver) × (queue r id f ≡ ret r') × IsQueued r id s r'
unfolding queue
queue-IsQueued r id s f there wanted =
    let s' = record s { fq = f ∷ s.fq; wf = false } in
    let same = find_stream-id r.hp.streams id s there in
    let there' = find_stream-put_stream r.hp.streams s s' id there same in
    let r' = record r { hp = record r.hp { streams = put_stream s' r.hp.streams } } in
    let r'' = record r' { hp = record r'.hp { wf = r.hp.wf - 1 } } in
    elim (Bool-cases s.wf) [
      | inr idle ↦ (
        r',
        rw (queue, there, idle) refl,
        record {
          fatal_kept = refl;
          ctx_kept = refl;
          expects_kept = refl;
          vsb_kept = refl;
          hdrs_kept = refl;
          queued = s';
          found = there';
          req_kept = refl;
          resp_kept = refl;
          not_wanted = refl;
        },
      )
      | inl waits ↦
          let some_wanted : (r.hp.wf == 0) ≡ false = ground (arith, wanted waits) in
          (
            r'',
            rw (queue, there, waits, some_wanted) refl,
            record {
              fatal_kept = refl;
              ctx_kept = refl;
              expects_kept = refl;
              vsb_kept = refl;
              hdrs_kept = refl;
              queued = s';
              found = there';
              req_kept = refl;
              resp_kept = refl;
              not_wanted = refl;
            },
          )
    ]

pub with_slots-id : (b : Bool) (s : Stream) (hs : List HpkHdr) → (with_slots b s hs).id ≡ s.id
with_slots-id true s hs = refl
with_slots-id false s hs = refl

pub with_slots-wf : (b : Bool) (s : Stream) (hs : List HpkHdr) → (with_slots b s hs).wf ≡ s.wf
with_slots-wf true s hs = refl
with_slots-wf false s hs = refl

pub slots_of-with_slots :
    (b : Bool) (s : Stream) (hs : List HpkHdr) → slots_of b (with_slots b s hs) ≡ hs
slots_of-with_slots true s hs = refl
slots_of-with_slots false s hs = refl

pub find_stream-head :
    (t : Stream) (ts : List Stream) (id : ℕ)
    → (t.id == id) ≡ true
    → find_stream (t ∷ ts) id ≡ some t
unfolding find_stream
find_stream-head t ts id h = rw h refl

pub set_slots-there :
    (h : Hdrs) (ss : List Stream) (s : Stream) (slots : List HpkHdr)
    → find_stream ss h.owner ≡ some s
    → find_stream (set_slots h slots ss) h.owner ≡ some (with_slots h.is_req s slots)
unfolding find_stream set_slots
set_slots-there h [] s slots there = cc
set_slots-there h (u ∷ us) s slots there = elim (Bool-cases (u.id == h.owner)) [
  | inl same ↦
      let it_is : u ≡ s = (let there' = rw same at there in cc) in
      let v = with_slots h.is_req u slots in
      let same' : (v.id == h.owner) ≡ true = rw (with_slots-id h.is_req u slots) same in
      rw same
        (find_stream-head v us h.owner same' ∙ ap (λ x. some (with_slots h.is_req x slots)) it_is)
  | inr other ↦ rw other (rw other (set_slots-there h us s slots (rw other at there)))
]

pub slots_kept :
    (b : Bool) (s t : Stream) → t.req ≡ s.req → t.resp ≡ s.resp → slots_of b t ≡ slots_of b s
slots_kept true s t h k = h
slots_kept false s t h k = k
