-- ===== src/Http1/Connection/Bounds.antt =====
-- Whatever arrives, `http_rxchar` of src/vtc_http.c stays in its buffer.
use vtest.Base.{
  ℕ, zero, suc, ◌+◌, ◌-◌, ◌≤◌, ◌<◌, ◌≡◌, refl, sym, ◌∙◌, List, [], ◌∷◌, ◌++◌, append_assoc,
  append-nil, Bytes, length, length-append, take, length-take, Bool, true, false, not, ltb, leb,
  Outcome, ret, aborted, undefined, Ensures, arith, if_branches,
}
use vtest.Http1.Connection.{
  Arrival, segment, interrupted, timed_out, poll_failed, closed, read_failed, Http, Rx, rx_all,
  rx_eof, rx_error, rx_waits, rxchar_loop, http_rxchar, complain,
}

-- Up to so many bytes stand behind those that were there, all of them where the answer is 1; and what
-- was inside the buffer with room for a terminator still is.
pub record Bounded (n : ℕ) (hp : Http) (r : Rx × Http) : Type 0 where
  pub new : Bytes
  pub behind : r.1.rx ≡ hp.rx ++ new
  pub few : length new ≤ n
  pub all : r.0 ≡ rx_all → length new ≡ n
  pub same_buffer : r.1.nrxbuf ≡ hp.nrxbuf
  pub room : length hp.rx < hp.nrxbuf → length r.1.rx < hp.nrxbuf

-- Nothing new
unchanged :
    (n : ℕ) (hp : Http) (i : Rx) (es : List Arrival)
    → (i ≡ rx_all → 0 ≡ n)
    → Bounded n hp (i, record hp { pending = es })
unchanged n hp i es h = record {
  new = [];
  behind = sym (append-nil hp.rx);
  few = omega arith;
  all = h;
  same_buffer = refl;
  room = λ g. g;
}

Ensures-complain :
    (P : Rx × Http → Type 0) (fatal : Bool) (m : Outcome (Rx × Http))
    → Ensures P m
    → Ensures P (complain fatal m)
Ensures-complain P true m h = record {}
Ensures-complain P false m h = h

-- More bytes behind some that have been received
longer :
    (n : ℕ) (hp : Http) (cs : Bytes) (r : Rx × Http)
    → length cs ≤ n
    → length hp.rx + n < hp.nrxbuf
    → Bounded (n - length cs) (record hp { rx = hp.rx ++ cs }) r
    → Bounded n hp r
longer n hp cs r some_read fits b = record {
  new = cs ++ b.new;
  behind = b.behind ∙ append_assoc hp.rx cs b.new;
  few = omega (arith, some_read, b.few, length-append cs b.new);
  all = λ e. omega (arith, some_read, b.all e, length-append cs b.new);
  same_buffer = b.same_buffer;
  room = λ g. b.room (omega (arith, fits, some_read, length-append hp.rx cs));
}

Ensures-map :
    (P Q : Rx × Http → Type 0) (m : Outcome (Rx × Http))
    → ((r : Rx × Http) → P r → Q r)
    → Ensures P m
    → Ensures Q m
Ensures-map P Q (ret r) f h = f r h
Ensures-map P Q aborted f h = h
Ensures-map P Q undefined f h = h

rxchar_loop-Bounded :
    (es : List Arrival) (n : ℕ) (eof : Bool) (hp : Http)
    → Ensures (Bounded n hp) (rxchar_loop es n eof hp)
unfolding rxchar_loop
rxchar_loop-Bounded es zero eof hp = unchanged 0 hp rx_all es (λ e. refl)
rxchar_loop-Bounded [] (suc n) eof hp =
    Ensures-complain (Bounded (suc n) hp) hp.fatal (ret (rx_waits, record hp { pending = [] }))
      (unchanged (suc n) hp rx_waits [] (λ e. absurd cc))
rxchar_loop-Bounded (interrupted ∷ es) (suc n) eof hp = rxchar_loop-Bounded es (suc n) eof hp
rxchar_loop-Bounded (timed_out ∷ es) (suc n) eof hp =
    Ensures-complain (Bounded (suc n) hp) hp.fatal (rxchar_loop es (suc n) eof hp)
      (rxchar_loop-Bounded es (suc n) eof hp)
rxchar_loop-Bounded (poll_failed ∷ es) (suc n) eof hp =
    Ensures-complain (Bounded (suc n) hp) hp.fatal (rxchar_loop es (suc n) eof hp)
      (rxchar_loop-Bounded es (suc n) eof hp)
rxchar_loop-Bounded (closed ∷ es) (suc n) eof hp =
    if_branches (Ensures (Bounded (suc n) hp)) (not (ltb (length hp.rx + suc n) hp.nrxbuf))
      (λ full. record {})
      (λ fits.
        if_branches (Ensures (Bounded (suc n) hp)) eof
          (λ e. unchanged (suc n) hp rx_eof es (λ e. absurd cc))
          (λ e.
            Ensures-complain (Bounded (suc n) hp) hp.fatal
              (ret (rx_error, record hp { pending = es }))
              (unchanged (suc n) hp rx_error es (λ e. absurd cc))))
rxchar_loop-Bounded (read_failed ∷ es) (suc n) eof hp =
    if_branches (Ensures (Bounded (suc n) hp)) (not (ltb (length hp.rx + suc n) hp.nrxbuf))
      (λ full. record {})
      (λ fits.
        Ensures-complain (Bounded (suc n) hp) hp.fatal (ret (rx_error, record hp { pending = es }))
          (unchanged (suc n) hp rx_error es (λ e. absurd cc)))
rxchar_loop-Bounded (segment c cs ∷ es) (suc n) eof hp =
    if_branches (Ensures (Bounded (suc n) hp)) (not (ltb (length hp.rx + suc n) hp.nrxbuf))
      (λ full. record {})
      (λ guard.
        let fits : length hp.rx + suc n < hp.nrxbuf = ground (arith, guard) in
        if_branches (Ensures (Bounded (suc n) hp)) (leb (suc n) (suc (length cs)))
          (λ enough.
            let some_more : suc n ≤ suc (length cs) = ground (arith, enough) in
            let taken = length-take (suc n) (c ∷ cs) in
            record {
              new = take (suc n) (c ∷ cs);
              behind = refl;
              few = omega (arith, taken);
              all = λ e. omega (arith, taken, some_more);
              same_buffer = refl;
              room = λ g. omega (arith, fits, taken, length-append hp.rx (take (suc n) (c ∷ cs)));
            })
          (λ short.
            let fewer : suc (length cs) ≤ suc n = ground (arith, short) in
            Ensures-map (Bounded (suc n - suc (length cs)) (record hp { rx = hp.rx ++ c ∷ cs }))
              (Bounded (suc n) hp)
              (rxchar_loop es (suc n - suc (length cs)) eof (record hp { rx = hp.rx ++ c ∷ cs }))
              (λ r. longer (suc n) hp (c ∷ cs) r fewer fits)
              (rxchar_loop-Bounded es (suc n - suc (length cs)) eof
                (record hp { rx = hp.rx ++ c ∷ cs }))))

-- Whatever arrives, and whether errors are fatal or not: where `http_rxchar` returns, up to as many bytes
-- as were asked for stand behind those that were there, exactly as many where it answers 1, and if the
-- buffer had room for the terminator, it still has.
pub http_rxchar-Bounded :
    (n : ℕ) (eof : Bool) (hp : Http) → Ensures (Bounded n hp) (http_rxchar n eof hp)
unfolding http_rxchar
http_rxchar-Bounded n eof hp = rxchar_loop-Bounded hp.pending n eof hp
