-- ===== src/Http1/Header/Rounds.antt =====
-- The loop of `http_rxhdr` of src/vtc_http.c ends: its buffer is full before its rounds are over.
use vtest.Base.{
  true, ℕ, zero, suc, ◌+◌, ◌≤◌, ◌<◌, ◌≡◌, refl, ap, length, length-append, Option-cases, Outcome,
  ret, aborted, undefined, ◌>>=◌, Ensures, arith, inl, inr,
}
use vtest.Http1.Connection.{Http, Rx, rx_all, rx_eof, rx_error, rx_waits, http_rxchar}
use vtest.Http1.Connection.Bounds.{Bounded, http_rxchar-Bounded}
use vtest.Http1.Header.{hdr_state, last_byte, after_byte, rxhdr_loop}

bind_ensured :
    (P : Rx × Http → Type 0) (m : Outcome (Rx × Http)) (f g : Rx × Http → Outcome (Rx × Http))
    → Ensures P m
    → ((r : Rx × Http) → P r → f r ≡ g r)
    → (m >>= f) ≡ (m >>= g)
bind_ensured P (ret r) f g h same = same r h
bind_ensured P aborted f g h same = refl
bind_ensured P undefined f g h same = refl

after_byte_same :
    (f g : ℕ → Http → Outcome (Rx × Http)) (s : ℕ) (r : Rx × Http)
    → (r.0 ≡ rx_all → (s' : ℕ) → f s' r.1 ≡ g s' r.1)
    → after_byte f s r ≡ after_byte g s r
after_byte_same f g s (rx_all, hp) same = elim (Option-cases (hdr_state s (last_byte hp.rx))) [
  | inl ends ↦ rw (after_byte, ends) refl
  | inr (s', goes) ↦ rw (after_byte, goes) (same refl s')
]
after_byte_same f g s (rx_eof, hp) same = refl
after_byte_same f g s (rx_error, hp) same = refl
after_byte_same f g s (rx_waits, hp) same = refl

-- Where the buffer has room for the terminator, and there are as many rounds as the buffer has bytes
-- left: whatever arrives, more rounds change nothing in what the loop of `http_rxhdr` comes to.
pub rxhdr_loop_enough :
    (rounds extra s : ℕ) (hp : Http)
    → length hp.rx < hp.nrxbuf
    → hp.nrxbuf ≤ length hp.rx + rounds
    → rxhdr_loop rounds s hp ≡ rxhdr_loop (rounds + extra) s hp
unfolding rxhdr_loop
rxhdr_loop_enough zero extra s hp room enough = absurd (omega (arith, room, enough))
rxhdr_loop_enough (suc rounds) extra s hp room enough =
    let more : suc rounds + extra ≡ suc (rounds + extra) = omega arith in
    rw more (
      bind_ensured (Bounded 1 hp) (http_rxchar 1 true hp) (after_byte (rxhdr_loop rounds) s)
        (after_byte (rxhdr_loop (rounds + extra)) s) (http_rxchar-Bounded 1 true hp)
        (λ r b. after_byte_same (rxhdr_loop rounds) (rxhdr_loop (rounds + extra)) s r (λ all s'.
          let grown = ap length b.behind in
          let joined = length-append hp.rx b.new in
          let one = b.all all in
          rxhdr_loop_enough rounds extra s' r.1 (omega (arith, b.room room, b.same_buffer))
            (omega (arith, enough, grown, joined, one, b.same_buffer)))))
