-- ===== src/Http1/Body.antt =====
-- The body of a message: `http_rxchunk` and `http_swallow_body` of src/vtc_http.c. The texts `bodylen`
-- and `chunklen` show the numbers and are left out.
pub mod Chunks
pub mod Length
use vtest.Base.Int.{ℤ, pos, negsuc, ◌+ℤ◌, ◌-ℤ◌, pos_part, ltb_ℤ, signed32}
use vtest.Base.{
  ℕ, zero, suc, ◌+◌, ◌-◌, ◌*◌, ◌^◌, ◌%◌, List, [], ◌∷◌, ◌++◌, Bytes, codes, length, take, drop, map,
  Bool, true, false, not, ◌&&◌, ◌||◌, ◌==◌, ltb, leb, if◌then◌else◌, Option, none, some, Outcome,
  ret, aborted, undefined, ◌>>=◌,
}
use vtest.Http1.Connection.{Http, Hh, Rx, rx_all, rx_eof, rx_error, rx_waits, http_rxchar, complain}
use vtest.Http1.Header.{
  vct_islws, peek, skip, vct_iscrlf, lower, last_byte, http_rxhdr, http_splitheader,
  http_find_header, http_count_header,
}
use vtest.Macros.{same_text}
use vtest.Http1.Strtoul.{strtoul}

-- What is done with what was received: `http_rxchunk` and `http_swallow_body` give up where
-- `http_rxchar` fails; none if it waits for ever.
abbrev pub Next : Type 0
Next = Outcome (Option (ℤ × Http))

abbrev pub when_all : Outcome (Rx × Http) → (Http → Next) → Next
when_all m k = m >>= λ r. elim r.0 [
  | rx_all ↦ k r.1
  | rx_eof ↦ ret (some (negsuc 0, r.1))
  | rx_error ↦ ret (some (negsuc 0, r.1))
  | rx_waits ↦ ret none
]

-- do ... while (hp->rx_p[-1] != '\n'), and what is done then. As many rounds as the buffer has bytes
-- are enough.
pub rxline : ℕ → (Http → Next) → Http → Next
rxline zero k hp = aborted
rxline (suc rounds) k hp =
    when_all (http_rxchar 1 false hp)
      (λ hp'. let more = rxline rounds k hp' in if last_byte hp'.rx == 10 then k hp' else more)

-- The two bytes behind a chunk, whose length is `i`
pub rxchunk_end : ℤ → Http → Next
rxchunk_end i hp = when_all (http_rxchar 2 false hp) (λ hp'.
    if vct_iscrlf (drop (length hp.rx) hp'.rx) == 0
    then complain hp.fatal (ret (some (negsuc 0, hp')))
    else ret (some (i, record hp' { rx = hp.rx })))

-- The chunk, once its length is there: the bytes go over the line of the length.
pub rxchunk_data : Bytes → ℤ → Http → Next
rxchunk_data old i hp =
    let hp' = record hp { rx = old } in
    if ltb_ℤ (pos 0) i
    then when_all (http_rxchar (pos_part i) false hp') (rxchunk_end i)
    else rxchunk_end i hp'

-- The line of the length, behind the bytes `old`
pub rxchunk_length : Bytes → Http → Next
rxchunk_length old hp =
    let failed = complain hp.fatal (ret (some (negsuc 0, hp))) in
    elim (strtoul 16 (drop (length old) hp.rx)) [
      | none ↦ failed
      | some (n, q) ↦
          if (length q == 0) || not ((peek q == 0) || vct_islws (peek q))
          then failed
          else rxchunk_data old (signed32 (n % 2 ^ 32)) hp
    ]

-- `http_rxchunk`
pub http_rxchunk : Http → Next
http_rxchunk hp = rxline hp.nrxbuf (rxchunk_length hp.rx) hp

-- while (http_rxchunk(hp) > 0): the bytes of the body that were there at first, those that came since,
-- and what is done then. A chunk has a byte at least, for which there is room.
pub chunk_loop : ℕ → ℕ → ℕ → ℕ → (ℤ → Http → Next) → ℤ → Http → Next
chunk_loop zero body l max k ll hp = aborted
chunk_loop (suc rounds) body l max k ll hp = http_rxchunk hp >>= λ o. elim o [
  | none ↦ ret none
  | some (i, hp') ↦
      let ll' = pos (length hp'.rx - body) -ℤ pos l in
      let more = chunk_loop rounds body l max k ll' hp' in
      if not (ltb_ℤ (pos 0) i)
      then k ll hp'
      else if not (max == 0) && not (ltb_ℤ ll' (pos max))
      then k ll' hp'
      else more
]

-- The loop that receives up to the end of the connection
pub eof_loop : ℕ → ℕ → (ℤ → Http → Next) → ℤ → Http → Next
eof_loop zero max k ll hp = aborted
eof_loop (suc rounds) max k ll hp = http_rxchar 1 true hp >>= λ r.
    let ll' = ll +ℤ pos 1 in
    let more = eof_loop rounds max k ll' r.1 in
    elim r.0 [
      | rx_all ↦ if not (max == 0) && not (ltb_ℤ ll' (pos max)) then k ll' r.1 else more
      | rx_eof ↦ k ll r.1
      | rx_error ↦ ret (some (negsuc 0, r.1))
      | rx_waits ↦ ret none
    ]

-- strcasecmp(a, b) == 0
abbrev pub same_nocase : Bytes → Bytes → Bool
same_nocase a b = same_text (map lower a) (map lower b)

-- The end of `http_swallow_body`, which sets `bodyl`
abbrev pub finish : ℤ → ℤ → Http → Next
finish l ll hp = ret (some (pos 0, record hp { bodyl = l +ℤ ll }))

-- How many bytes are wanted_length, where the length of the body is given
abbrev pub wanted_length : ℕ → ℕ → ℤ → ℤ
wanted_length l max ll = if not (max == 0) && ltb_ℤ (pos (l + max)) ll then pos max else ll -ℤ pos l

-- The number that a text begins with, as an int; 0 where there is none
abbrev pub int_of : Bytes → ℤ
int_of q = elim (strtoul 10 q) [ none ↦ pos 0 | some (n, rest) ↦ signed32 (n % 2 ^ 32) ]

pub swallow_length : ℕ → ℕ → Bytes → Http → Next
swallow_length l max q hp =
    let ll = wanted_length l max (int_of q) in
    when_all (http_rxchar (pos_part ll) false hp) (finish (pos l) ll)

pub swallow_other : ℕ → Bool → ℕ → Http → Next
swallow_other l is_body max hp =
    if is_body
    then eof_loop hp.nrxbuf max (finish (pos l)) (pos 0) hp
    else finish (pos 0) (pos 0) hp

pub swallow_chunks : ℕ → ℕ → ℕ → Option Bytes → Http → Next
swallow_chunks body l max none hp = chunk_loop hp.nrxbuf body l max (finish (pos l)) (pos 0) hp
swallow_chunks body l max (some q) hp = complain hp.fatal (ret (some (negsuc 0, hp)))

-- The body that begins at the distance `body` from `rx_b`
pub swallow_from : ℕ → Hh → Bool → ℕ → Http → Next
swallow_from body hh is_body max hp =
    let l = length hp.rx - body in
    let q = http_find_header hh.fields (codes "content-length") in
    let other : Next = elim q [
      | none ↦ swallow_other l is_body max hp
      | some c ↦ swallow_length l max c hp
    ] in
    elim (http_find_header hh.fields (codes "transfer-encoding")) as (λ _. Next) [
      | none ↦ other
      | some p ↦ if same_nocase p (codes "chunked") then swallow_chunks body l max q hp else other
    ]

-- `http_swallow_body`. Without a body to point into, the distance has no meaning.
pub http_swallow_body : Hh → Bool → ℕ → Http → Next
http_swallow_body hh is_body max hp = elim hp.body [
  | none ↦ undefined
  | some body ↦ swallow_from body hh is_body max hp
]
