-- ===== src/Http1/Body/Chunks.antt =====
-- A body in chunks, as `http_rxchunk` and `http_swallow_body` of src/vtc_http.c receive it.
pub mod Wire
use vtest.Base.Int.{ℤ, pos, negsuc, ltb_ℤ, pos_part, signed32}
use vtest.Base.{
  ℕ, zero, suc, ◌+◌, ◌-◌, ◌*◌, ◌^◌, ◌%◌, ◌≤◌, ◌<◌, ◌≡◌, ◌≢◌, refl, sym, ap, ◌∙◌, List, [], ◌∷◌,
  ◌++◌, append_assoc, Bytes, length, append-nil, length-append, drop, drop-append, map, Bool, true,
  false, not, ◌||◌, ◌==◌, ltb, if◌then◌else◌, Option, none, some, Outcome, ret, ◌>>=◌, arith, All,
  Bool-cases, inl, inr,
}
use vtest.Http1.Body.{
  Next, when_all, rxline, rxchunk_end, rxchunk_data, rxchunk_length, http_rxchunk,
}
use vtest.Http1.Strtoul.{value_from, strtoul}
use vtest.Http1.Strtoul.Digits.{digit_char, numeral, Below, strtoul-numeral}
use vtest.Http1.Body.Length.{signed32-small}
use vtest.Http1.Connection.{Http, Arrival, rx_all, http_rxchar, complain}
use vtest.Http1.Connection.Segments.{AreSegments, arrived, Behind, received, http_rxchar-segments}
use vtest.Http1.Header.{last_byte, vct_iscrlf, vct_islws, peek}
use vtest.Http1.Header.Receive.{last_byte-append}

rxline-byte :
    (rounds c : ℕ) (k : Http → Next) (hp : Http) (es : List Arrival)
    → http_rxchar 1 false hp ≡ ret (rx_all, received hp (c ∷ []) es)
    → rxline (suc rounds) k hp
      ≡ (if c == 10 then k (received hp (c ∷ []) es) else rxline rounds k (received hp (c ∷ []) es))
unfolding rxline
rxline-byte rounds c k hp es got = rw got (
    ap
      (λ b.
        if b == 10 then k (received hp (c ∷ []) es) else rxline rounds k (received hp (c ∷ []) es))
      (last_byte-append hp.rx c))

-- Up to the end of a line
rxline-line :
    (rounds : ℕ) (k : Http → Next) (hp : Http) (bs rest : Bytes)
    → All (λ c. c ≢ 10) bs
    → AreSegments hp.pending
    → arrived hp.pending ≡ bs ++ 10 ∷ rest
    → length hp.rx + suc (length bs) < hp.nrxbuf
    → length bs < rounds
    → (r : Behind rest) × (rxline rounds k hp ≡ k (received hp (bs ++ 10 ∷ []) r.behind))
rxline-line zero k hp bs rest h segs e room enough = absurd (omega (arith, enough))
rxline-line (suc rounds) k hp [] rest h segs e room enough =
    let (r, got) = http_rxchar-segments hp false (10 ∷ []) rest segs e (omega (arith, room)) in
    (r, rxline-byte rounds 10 k hp r.behind got)
rxline-line (suc rounds) k hp (c ∷ bs) rest (h, hs) segs e room enough =
    let (r, got) =
      http_rxchar-segments hp false (c ∷ []) (bs ++ 10 ∷ rest) segs e (omega (arith, room)) in
    let no_end : (c == 10) ≡ false = ground (arith, h) in
    let joined = length-append hp.rx (c ∷ []) in
    let (r', others) =
      rxline-line rounds k (received hp (c ∷ []) r.behind) bs rest hs r.segments r.left
        (omega (arith, room, joined)) (omega (arith, enough)) in
    (
      r',
      rxline-byte rounds c k hp r.behind got
          ∙ ap
              (λ b.
                if b
                then k (received hp (c ∷ []) r.behind)
                else rxline rounds k (received hp (c ∷ []) r.behind))
              no_end
          ∙ others
          ∙ ap (λ t. k (record hp { rx = t; pending = r'.behind }))
              (append_assoc hp.rx (c ∷ []) (bs ++ 10 ∷ [])),
    )

-- The end of a chunk
rxchunk_end-crlf :
    (i : ℤ) (hp : Http) (rest : Bytes)
    → AreSegments hp.pending
    → arrived hp.pending ≡ 13 ∷ 10 ∷ rest
    → length hp.rx + 2 < hp.nrxbuf
    → (r : Behind rest) × (rxchunk_end i hp ≡ ret (some (i, record hp { pending = r.behind })))
unfolding rxchunk_end vct_iscrlf
rxchunk_end-crlf i hp rest segs e room =
    let (r, got) = http_rxchar-segments hp false (13 ∷ 10 ∷ []) rest segs e (omega (arith, room)) in
    (r, rw (got, drop-append hp.rx (13 ∷ 10 ∷ [])) refl)

rxchunk_data-bytes :
    (old : Bytes) (hp : Http) (bs rest : Bytes)
    → AreSegments hp.pending
    → arrived hp.pending ≡ bs ++ 13 ∷ 10 ∷ rest
    → length old + length bs + 2 < hp.nrxbuf
    → (r : Behind rest) × (rxchunk_data old (pos (length bs)) hp
        ≡ ret (some (pos (length bs), record hp { rx = old ++ bs; pending = r.behind })))
unfolding rxchunk_data
rxchunk_data-bytes old hp [] rest segs e room =
    let (r, got) =
      rxchunk_end-crlf (pos 0) (record hp { rx = old }) rest segs e (omega (arith, room)) in
    (
      r,
      got
          ∙ ap (λ t. ret (some (pos 0, record hp { rx = t; pending = r.behind })))
              (sym (append-nil old)),
    )
rxchunk_data-bytes old hp (b ∷ bs) rest segs e room =
    let (r, got) =
      http_rxchar-segments (record hp { rx = old }) false (b ∷ bs) (13 ∷ 10 ∷ rest) segs e
        (omega (arith, room)) in
    let joined = length-append old (b ∷ bs) in
    let (r', done) =
      rxchunk_end-crlf (pos (suc (length bs))) (received (record hp { rx = old }) (b ∷ bs) r.behind)
        rest r.segments r.left (omega (arith, room, joined)) in
    let some_bytes : ltb_ℤ (pos 0) (pos (suc (length bs))) ≡ true = ground arith in
    (r', rw (some_bytes, got) done)

-- The digits of a number have no end of a line in them.
numeral-line : (ds : List ℕ) → All (λ c. c ≢ 10) (numeral ds ++ 13 ∷ [])
numeral-line [] = (omega arith, record {})
numeral-line (d ∷ ds) = (ground arith, numeral-line ds)

rxchunk_length-numeral :
    (old : Bytes) (d : ℕ) (ds : List ℕ) (hp : Http)
    → All (Below 16) (d ∷ ds)
    → value_from 16 0 (d ∷ ds) < 2 ^ 31
    → hp.rx ≡ old ++ (numeral (d ∷ ds) ++ 13 ∷ 10 ∷ [])
    → rxchunk_length old hp ≡ rxchunk_data old (pos (value_from 16 0 (d ∷ ds))) hp
unfolding rxchunk_length
rxchunk_length-numeral old d ds hp h small there =
    let v = value_from 16 0 (d ∷ ds) in
    let number = strtoul-numeral 16 d ds (13 ∷ 10 ∷ []) (inr refl) h refl (omega (arith, small)) in
    let at : drop (length old) hp.rx ≡ numeral (d ∷ ds) ++ 13 ∷ 10 ∷ [] =
      ap (drop (length old)) there ∙ drop-append old (numeral (d ∷ ds) ++ 13 ∷ 10 ∷ []) in
    let read : strtoul 16 (drop (length old) hp.rx) ≡ some (v, 13 ∷ 10 ∷ []) =
      ap (strtoul 16) at ∙ number in
    ap
      (λ o. elim o as (λ _. Next) [
        | none ↦ complain hp.fatal (ret (some (negsuc 0, hp)))
        | some p ↦
            if (length p.1 == 0) || not ((peek p.1 == 0) || vct_islws (peek p.1))
            then complain hp.fatal (ret (some (negsuc 0, hp)))
            else rxchunk_data old (signed32 (p.0 % 2 ^ 32)) hp
      ])
      read
    ∙ ap (λ i. rxchunk_data old i hp) (signed32-small v small)

-- A chunk: its length in digits, with a first one, and its bytes
pub record Chunk : Type 0 where
  pub first_digit : ℕ
  pub more_digits : List ℕ
  pub bytes : Bytes

-- The digits are those of the number of bytes.
pub record IsChunk (c : Chunk) : Type 0 where
  pub digits_below : All (Below 16) (c.first_digit ∷ c.more_digits)
  pub counts : value_from 16 0 (c.first_digit ∷ c.more_digits) ≡ length c.bytes
  pub small : length c.bytes < 2 ^ 31

abbrev pub chunk_line : Chunk → Bytes
chunk_line c = numeral (c.first_digit ∷ c.more_digits) ++ 13 ∷ []

-- A chunk on the wire
abbrev pub chunk_wire : Chunk → Bytes
chunk_wire c = chunk_line c ++ 10 ∷ (c.bytes ++ 13 ∷ 10 ∷ [])

chunk_wire-append :
    (c : Chunk) (rest : Bytes)
    → chunk_wire c ++ rest ≡ chunk_line c ++ 10 ∷ (c.bytes ++ 13 ∷ 10 ∷ rest)
chunk_wire-append c rest =
    append_assoc (chunk_line c) (10 ∷ (c.bytes ++ 13 ∷ 10 ∷ [])) rest
    ∙ ap (λ t. chunk_line c ++ 10 ∷ t) (append_assoc c.bytes (13 ∷ 10 ∷ []) rest)

-- A chunk is received: its bytes stand behind what was there, and the line of its length is gone.
pub http_rxchunk-chunk :
    (c : Chunk) (hp : Http) (rest : Bytes)
    → IsChunk c
    → AreSegments hp.pending
    → arrived hp.pending ≡ chunk_wire c ++ rest
    → length hp.rx + length (chunk_wire c) < hp.nrxbuf
    → (r : Behind rest) × (http_rxchunk hp
        ≡ ret (some (pos (length c.bytes), received hp c.bytes r.behind)))
unfolding http_rxchunk
http_rxchunk-chunk c hp rest h segs e room =
    let d = c.first_digit in
    let ds = c.more_digits in
    let behind_line = c.bytes ++ 13 ∷ 10 ∷ rest in
    let sizes = length-append (chunk_line c) (10 ∷ (c.bytes ++ 13 ∷ 10 ∷ [])) in
    let tail = length-append c.bytes (13 ∷ 10 ∷ []) in
    let (r, line) =
      rxline-line hp.nrxbuf (rxchunk_length hp.rx) hp (chunk_line c) behind_line
        (numeral-line (d ∷ ds)) segs (e ∙ chunk_wire-append c rest) (omega (arith, room, sizes))
        (omega (arith, room, sizes)) in
    let hp1 = received hp (chunk_line c ++ 10 ∷ []) r.behind in
    let text = append_assoc (numeral (d ∷ ds)) (13 ∷ []) (10 ∷ []) in
    let number =
      rxchunk_length-numeral hp.rx d ds hp1 h.digits_below (omega (arith, h.counts, h.small))
        (ap (◌++◌ hp.rx) text) in
    let (r', got) =
      rxchunk_data-bytes hp.rx hp1 c.bytes rest r.segments r.left
        (omega (arith, room, sizes, tail)) in
    (r', line ∙ number ∙ ap (λ n. rxchunk_data hp.rx (pos n) hp1) h.counts ∙ got)
