-- ===== src/Http1/Header/Receive.antt =====
-- `http_rxhdr` of src/vtc_http.c takes the bytes of a header from the connection, and not one more.
use vtest.Base.{
  ℕ, zero, suc, ◌+◌, ◌≤◌, ◌<◌, ◌≡◌, refl, sym, ap, ◌∙◌, List, [], ◌∷◌, ◌++◌, Bytes, length,
  length-append, Bool, true, false, none, some, Option-cases, Outcome, ret, arith, inl, inr,
}
use vtest.Http1.Connection.{Arrival, Http, Rx, rx_all, http_rxchar}
use vtest.Http1.Connection.Segments.{
  AreSegments, arrived, Behind, received, joined-received, http_rxchar-segments,
}
use vtest.Http1.Header.{hdr_state, last_byte, rxhdr_loop, http_rxhdr}

abbrev is_nil : Bytes → Bool
is_nil [] = true
is_nil (c ∷ cs) = false

-- From the state on, the bytes end a header with the last of them and not before.
abbrev pub ends_header : ℕ → Bytes → Bool
ends_header s [] = false
ends_header s (c ∷ cs) = elim (hdr_state s c) as (λ _. Bool) [
  | none ↦ is_nil cs
  | some s' ↦ ends_header s' cs
]

pub last_byte-append : (bs : Bytes) (c : ℕ) → last_byte (bs ++ c ∷ []) ≡ c
last_byte-append [] c = refl
last_byte-append (b ∷ []) c = refl
last_byte-append (b ∷ d ∷ bs) c = last_byte-append (d ∷ bs) c

-- A round that receives a byte
rxhdr_loop-byte :
    (rounds s c : ℕ) (hp : Http) (es : List Arrival)
    → http_rxchar 1 true hp ≡ ret (rx_all, received hp (c ∷ []) es)
    → rxhdr_loop (suc rounds) s hp ≡ elim (hdr_state s c) as (λ _. Outcome (Rx × Http)) [
      | none ↦ ret (rx_all, received hp (c ∷ []) es)
      | some s' ↦ rxhdr_loop rounds s' (received hp (c ∷ []) es)
    ]
unfolding rxhdr_loop
rxhdr_loop-byte rounds s c hp es got = rw got (
    ap
      (λ b. elim (hdr_state s b) as (λ _. Outcome (Rx × Http)) [
        | none ↦ ret (rx_all, received hp (c ∷ []) es)
        | some s' ↦ rxhdr_loop rounds s' (received hp (c ∷ []) es)
      ])
      (last_byte-append hp.rx c))

is_nil-nil : (bs : Bytes) → is_nil bs ≡ true → bs ≡ []
is_nil-nil [] h = refl
is_nil-nil (b ∷ bs) h = absurd cc

rxhdr_loop-header :
    (rounds s : ℕ) (hp : Http) (bs rest : Bytes)
    → AreSegments hp.pending
    → arrived hp.pending ≡ bs ++ rest
    → length hp.rx + length bs < hp.nrxbuf
    → length bs ≤ rounds
    → ends_header s bs ≡ true
    → (r : Behind rest) × (rxhdr_loop rounds s hp ≡ ret (rx_all, received hp bs r.behind))
rxhdr_loop-header rounds s hp [] rest segs e room enough h = absurd cc
rxhdr_loop-header zero s hp (c ∷ bs) rest segs e room enough h = absurd (omega (arith, enough))
rxhdr_loop-header (suc rounds) s hp (c ∷ bs) rest segs e room enough h =
    let (r, got) =
      http_rxchar-segments hp true (c ∷ []) (bs ++ rest) segs e (omega (arith, room)) in
    let round = rxhdr_loop-byte rounds s c hp r.behind got in
    elim (Option-cases (hdr_state s c)) [
      | inl ends ↦
          let nothing_more = is_nil-nil bs (rw (ends_header, ends) at h) in
          (
            record {
              behind = r.behind;
              segments = r.segments;
              left = r.left ∙ ap (λ u. u ++ rest) nothing_more;
            },
            (rw ends at round)
                ∙ ap (λ u. ret (rx_all, received hp (c ∷ u) r.behind)) (sym nothing_more),
          )
      | inr (s', goes) ↦
          let joined = length-append hp.rx (c ∷ []) in
          let (r', others) =
            rxhdr_loop-header rounds s' (received hp (c ∷ []) r.behind) bs rest r.segments r.left
              (omega (arith, room, joined)) (omega (arith, enough)) (rw (ends_header, goes) at h) in
          (r', (rw goes at round) ∙ joined-received hp (c ∷ []) bs (c ∷ bs) r'.behind refl others)
    ]

-- What `http_rxhdr` leaves
abbrev pub with_header : Http → Bytes → List Arrival → Http
with_header hp bs es = record hp { rx = bs; pending = es; body = some (length bs) }

pub http_rxhdr-header :
    (hp : Http) (bs rest : Bytes)
    → AreSegments hp.pending
    → arrived hp.pending ≡ bs ++ rest
    → length bs < hp.nrxbuf
    → ends_header 0 bs ≡ true
    → (r : Behind rest) × (http_rxhdr hp ≡ ret (some (with_header hp bs r.behind)))
unfolding http_rxhdr
http_rxhdr-header hp bs rest segs e room h =
    let (r, got) =
      rxhdr_loop-header hp.nrxbuf 0 (record hp { rx = []; body = none }) bs rest segs e
        (omega (arith, room)) (omega (arith, room)) h in
    (r, rw got refl)
