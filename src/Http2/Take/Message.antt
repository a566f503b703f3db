-- ===== src/Http2/Take/Message.antt =====
-- A message that rxreq or rxresp of src/vtc_http2.c takes from the queue.
use vtest.Base.{
  ℕ, ◌≡◌, ap, ◌∙◌, ◌⊎◌, inl, inr, List, [], ◌∷◌, ◌++◌, Bool, true, false, ◌==◌, Option, some, ret,
  arith, All,
}
use vtest.Http2.Frame.{Frame}
use vtest.Http2.State.{has_flag}
use vtest.Http2.Take.{
  Rx, check_frame, rxmsg_data, rxmsg_body, rxmsg_conts, rxmsg_headers, rxmsg_loop, cmd_rxmsg,
}

-- Frames of a type, of which the last one, and no other, has a flag
abbrev pub Run : ℕ → ℕ → List Frame → Type 0
Run type bit [] = ⊥
Run type bit (f ∷ []) = (f.type ≡ type) × (has_flag f.flags bit ≡ true)
Run type bit (f ∷ g ∷ fs) = (f.type ≡ type) × (has_flag f.flags bit ≡ false) × Run type bit (g ∷ fs)

-- Such frames behind a frame, where that does not have the flag itself
abbrev pub Continues : Frame → ℕ → ℕ → ℕ → List Frame → Type 0
Continues f own type bit fs =
    ((has_flag f.flags own ≡ true) × (fs ≡ [])) ⊎ ((has_flag f.flags own ≡ false) × Run type bit fs)

abbrev pub last_of : Frame → List Frame → Frame
last_of f [] = f
last_of f (g ∷ gs) = last_of g gs

checked : (f : Frame) (type : ℕ) → f.type ≡ type → (f.type == type) ≡ true
checked f type e = ground arith

rxmsg_data-Run :
    (f : Frame) (fs rest : List Frame)
    → Run 0 1 (f ∷ fs)
    → rxmsg_data (f ∷ fs ++ rest) ≡ ret (some (last_of f fs), rest)
unfolding rxmsg_data check_frame
rxmsg_data-Run f [] rest (e, h) = rw (checked f 0 e, h)
rxmsg_data-Run f (g ∷ fs) rest (e, h, more) = rw (checked f 0 e, h) (rxmsg_data-Run g fs rest more)

-- What stands behind the header block
rxmsg_body-Continues :
    (h f : Frame) (datas rest : List Frame)
    → Continues h 1 0 1 datas
    → rxmsg_body (has_flag h.flags 1) f (datas ++ rest) ≡ ret (some (some (last_of f datas), rest))
unfolding rxmsg_body
rxmsg_body-Continues h f datas rest (inl (on, none_left)) = rw (on, none_left)
rxmsg_body-Continues h f [] rest (inr (off, run)) = absurd run
rxmsg_body-Continues h f (d ∷ ds) rest (inr (off, run)) = rw (off, rxmsg_data-Run d ds rest run)

rxmsg_conts-Run :
    (h f : Frame) (conts datas rest : List Frame)
    → Run 9 4 (f ∷ conts)
    → Continues h 1 0 1 datas
    → rxmsg_conts (has_flag h.flags 1) (f ∷ conts ++ (datas ++ rest))
      ≡ ret (some (some (last_of f (conts ++ datas)), rest))
unfolding rxmsg_conts check_frame
rxmsg_conts-Run h f [] datas rest (e, flag) more =
    rw (checked f 9 e, flag) (rxmsg_body-Continues h f datas rest more)
rxmsg_conts-Run h f (g ∷ conts) datas rest (e, flag, run) more =
    rw (checked f 9 e, flag) (rxmsg_conts-Run h g conts datas rest run more)

rxmsg_headers-Continues :
    (h : Frame) (conts datas rest : List Frame)
    → h.type ≡ 1
    → Continues h 4 9 4 conts
    → Continues h 1 0 1 datas
    → rxmsg_headers h (conts ++ (datas ++ rest))
      ≡ ret (some (some (last_of h (conts ++ datas)), rest))
unfolding rxmsg_headers check_frame
rxmsg_headers-Continues h conts datas rest e (inl (on, none_left)) more =
    rw (checked h 1 e, on, none_left) (rxmsg_body-Continues h h datas rest more)
rxmsg_headers-Continues h [] datas rest e (inr (off, run)) more = absurd run
rxmsg_headers-Continues h (c ∷ cs) datas rest e (inr (off, run)) more =
    rw (checked h 1 e, off) (rxmsg_conts-Run h c cs datas rest run more)

rxmsg_loop-ups :
    (ups : List Frame) (h : Frame) (rest : List Frame)
    → All (λ f. f.type ≡ 8) ups
    → h.type ≡ 1
    → rxmsg_loop (ups ++ h ∷ rest) ≡ rxmsg_headers h rest
unfolding rxmsg_loop
rxmsg_loop-ups [] h rest all e = let no_up : (h.type == 8) ≡ false = ground arith in rw no_up
rxmsg_loop-ups (u ∷ ups) h rest (eu, all) e = rw (checked u 8 eu) (rxmsg_loop-ups ups h rest all e)

cmd_rxmsg-runs :
    (for_server : Bool) (rx : Rx) (l : Option Frame) (rest : List Frame)
    → rx.hp.sfd ≡ for_server
    → rxmsg_loop rx.coming ≡ ret (some (l, rest))
    → cmd_rxmsg for_server rx ≡ ret (record rx { last = l; coming = rest })
unfolding cmd_rxmsg
cmd_rxmsg-runs true rx l rest side runs = simp (side, runs)
cmd_rxmsg-runs false rx l rest side runs = simp (side, runs)

-- Any WINDOW_UPDATE frames, then a HEADERS frame, then CONTINUATION frames up to the one with END_HEADERS
-- unless the HEADERS frame has it, then DATA frames up to the one with END_STREAM unless the HEADERS frame
-- has it: rxreq on a server and rxresp on a client take exactly these frames, the last of them is the
-- stream's frame, and what comes behind is left.
pub cmd_rxmsg-message :
    (for_server : Bool) (rx : Rx) (ups conts datas rest : List Frame) (h : Frame)
    → rx.hp.sfd ≡ for_server
    → rx.coming ≡ ups ++ h ∷ (conts ++ (datas ++ rest))
    → All (λ f. f.type ≡ 8) ups
    → h.type ≡ 1
    → Continues h 4 9 4 conts
    → Continues h 1 0 1 datas
    → cmd_rxmsg for_server rx
      ≡ ret (record rx { last = some (last_of h (conts ++ datas)); coming = rest })
cmd_rxmsg-message for_server rx ups conts datas rest h side is all e hc hd =
    cmd_rxmsg-runs for_server rx (some (last_of h (conts ++ datas))) rest side (
      ap rxmsg_loop is
      ∙ rxmsg_loop-ups ups h (conts ++ (datas ++ rest)) all e
      ∙ rxmsg_headers-Continues h conts datas rest e hc hd)
