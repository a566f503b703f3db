-- ===== src/Http1/Connection.antt =====
-- The connection of a client or a server, and how bytes are received from it: `struct http` and
-- `http_rxchar` of src/vtc_http.c.
pub mod Segments
pub mod Bounds
use vtest.Base.Int.{ℤ}
use vtest.Base.{
  ℕ, zero, suc, ◌+◌, ◌-◌, List, [], ◌∷◌, ◌++◌, Bytes, length, take, drop, Bool, true, false, not,
  ltb, leb, if◌then◌else◌, Option, none, some, Outcome, ret, aborted, ◌>>=◌,
}

-- What comes next: `poll` is interrupted, times out or fails; `read` meets the end or fails; or the
-- bytes of a segment are there, a byte at least, of which `read` takes as many as are wanted.
pub data Arrival : Type 0 where
  interrupted timed_out poll_failed closed read_failed : Arrival
  segment : ℕ → Bytes → Arrival

-- Bytes that come before the rest; a segment that has been read is gone.
abbrev pub arriving : Bytes → List Arrival → List Arrival
arriving [] es = es
arriving (c ∷ cs) es = segment c cs ∷ es

-- `hh`: the first three strings, of which each can be NULL, and the fields behind them
pub record Hh : Type 0 where
  pub first : Option Bytes
  pub second : Option Bytes
  pub third : Option Bytes
  pub fields : List Bytes

-- The part of `struct http` that HTTP/1 uses. `rx` has the bytes from `rx_b` to `rx_p`, `nrxbuf` the
-- size of that buffer, and `body` is given by its distance from `rx_b`. `fatal` says whether `vtc_log`
-- at the level `hp->fatal` ends the test.
pub record Http : Type 0 where
  pub fatal : Bool
  pub nrxbuf : ℕ
  pub rx : Bytes
  pub pending : List Arrival
  pub body : Option ℕ
  pub bodyl : ℤ
  pub req : Hh
  pub resp : Hh
  pub head_method : Bool

-- What `http_rxchar` returns: 1, 0 or -1; or it waits for ever, since time-outs do not end it where they
-- are not fatal.
pub data Rx : Type 0 where
  rx_all rx_eof rx_error rx_waits : Rx

-- A complaint at the level `hp->fatal`
abbrev pub complain {ℓ} : {A : Type ℓ} → Bool → Outcome A → Outcome A
complain fatal m = if fatal then aborted else m

-- The loop over what arrives, for so many bytes
pub rxchar_loop : List Arrival → ℕ → Bool → Http → Outcome (Rx × Http)
rxchar_loop es zero eof hp = ret (rx_all, record hp { pending = es })
rxchar_loop [] (suc n) eof hp = complain hp.fatal (ret (rx_waits, record hp { pending = [] }))
rxchar_loop (interrupted ∷ es) (suc n) eof hp = rxchar_loop es (suc n) eof hp
rxchar_loop (timed_out ∷ es) (suc n) eof hp = complain hp.fatal (rxchar_loop es (suc n) eof hp)
rxchar_loop (poll_failed ∷ es) (suc n) eof hp = complain hp.fatal (rxchar_loop es (suc n) eof hp)
rxchar_loop (closed ∷ es) (suc n) eof hp =
    if not (ltb (length hp.rx + suc n) hp.nrxbuf)
    then aborted
    else if eof
    then ret (rx_eof, record hp { pending = es })
    else complain hp.fatal (ret (rx_error, record hp { pending = es }))
rxchar_loop (read_failed ∷ es) (suc n) eof hp =
    if not (ltb (length hp.rx + suc n) hp.nrxbuf)
    then aborted
    else complain hp.fatal (ret (rx_error, record hp { pending = es }))
rxchar_loop (segment c cs ∷ es) (suc n) eof hp =
    let part = record hp {
      rx = hp.rx ++ take (suc n) (c ∷ cs);
      pending = arriving (drop (suc n) (c ∷ cs)) es;
    } in
    let more = rxchar_loop es (suc n - suc (length cs)) eof (record hp { rx = hp.rx ++ c ∷ cs }) in
    if not (ltb (length hp.rx + suc n) hp.nrxbuf)
    then aborted
    else if leb (suc n) (suc (length cs))
    then ret (rx_all, part)
    else more

pub http_rxchar : ℕ → Bool → Http → Outcome (Rx × Http)
http_rxchar n eof hp = rxchar_loop hp.pending n eof hp
