-- ===== src/Http1/Connection/Segments.antt =====
-- However the bytes of a connection are cut into segments, `http_rxchar` of src/vtc_http.c gets them.
use vtest.Base.{
  ℕ, zero, suc, ◌+◌, ◌-◌, ◌≤◌, ◌<◌, ◌≡◌, refl, sym, ap, ◌∙◌, List, [], ◌∷◌, ◌++◌, append_assoc,
  append-nil, Bytes, length, length-append, take, drop, Bool, true, false, ltb, leb, Outcome, ret,
  arith, Bool-cases, inl, inr,
}
use vtest.Http1.Connection.{
  Arrival, segment, interrupted, timed_out, poll_failed, closed, read_failed, arriving, Http, Rx,
  rx_all, rxchar_loop, http_rxchar,
}

-- Only segments arrive.
abbrev pub AreSegments : List Arrival → Type 0
AreSegments [] = Unit
AreSegments (segment c cs ∷ es) = AreSegments es
AreSegments (_ ∷ es) = ⊥

-- The bytes of the segments
abbrev pub arrived : List Arrival → Bytes
arrived [] = []
arrived (segment c cs ∷ es) = (c ∷ cs) ++ arrived es
arrived (_ ∷ es) = arrived es

arriving-AreSegments :
    (bs : Bytes) (es : List Arrival) → AreSegments es → AreSegments (arriving bs es)
arriving-AreSegments [] es h = h
arriving-AreSegments (b ∷ bs) es h = h

arrived-arriving : (bs : Bytes) (es : List Arrival) → arrived (arriving bs es) ≡ bs ++ arrived es
arrived-arriving [] es = refl
arrived-arriving (b ∷ bs) es = refl

-- The segments that are left, with the bytes that they bring
pub record Behind (rest : Bytes) : Type 0 where
  pub behind : List Arrival
  pub segments : AreSegments behind
  pub left : arrived behind ≡ rest

-- The connection when bytes were received
abbrev pub received : Http → Bytes → List Arrival → Http
received hp bs es = record hp { rx = hp.rx ++ bs; pending = es }

-- A text that is the start of another is taken off it, or takes it whole and goes on.
split_append :
    (n : ℕ) (xs ys bs rest : Bytes)
    → xs ++ ys ≡ bs ++ rest
    → length bs ≡ n
    → n ≤ length xs
    → (take n xs ≡ bs) × (drop n xs ++ ys ≡ rest)
split_append zero xs ys [] rest e l h = (refl, e)
split_append zero xs ys (b ∷ bs) rest e l h = absurd (omega (arith, l))
split_append (suc n) xs ys [] rest e l h = absurd (omega (arith, l))
split_append (suc n) [] ys (b ∷ bs) rest e l h = absurd (omega (arith, h))
split_append (suc n) (x ∷ xs) ys (b ∷ bs) rest e l h =
    let same : x ≡ b = cc in
    let tails : xs ++ ys ≡ bs ++ rest = cc in
    let counted : length bs ≡ n = omega (arith, l) in
    let enough : n ≤ length xs = omega (arith, h) in
    let (t, d) = split_append n xs ys bs rest tails counted enough in (cc, d)

longer_append :
    (xs ys bs rest : Bytes)
    → xs ++ ys ≡ bs ++ rest
    → length xs < length bs
    → (bs' : Bytes) × (bs ≡ xs ++ bs') × (ys ≡ bs' ++ rest)
longer_append [] ys bs rest e h = (bs, refl, e)
longer_append (x ∷ xs) ys [] rest e h = absurd (omega (arith, h))
longer_append (x ∷ xs) ys (b ∷ bs) rest e h =
    let same : x ≡ b = cc in
    let tails : xs ++ ys ≡ bs ++ rest = cc in
    let longer : length xs < length bs = omega (arith, h) in
    let (bs', f, g) = longer_append xs ys bs rest tails longer in (bs', cc, g)

pub joined-received :
    {m : Outcome (Rx × Http)} (hp : Http) (xs bs' bs : Bytes) (es : List Arrival)
    → bs ≡ xs ++ bs'
    → m ≡ ret (rx_all, received (record hp { rx = hp.rx ++ xs }) bs' es)
    → m ≡ ret (rx_all, received hp bs es)
joined-received hp xs bs' bs es f others =
    others
    ∙ ap (λ u. ret (rx_all, record hp { rx = u; pending = es }))
        (append_assoc hp.rx xs bs' ∙ ap (◌++◌ hp.rx) (sym f))

rxchar_loop-short :
    (c : ℕ) (cs : Bytes) (es : List Arrival) (n k : ℕ) (eof : Bool) (hp : Http)
    → ltb (length hp.rx + suc n) hp.nrxbuf ≡ true
    → leb (suc n) (suc (length cs)) ≡ false
    → suc n - suc (length cs) ≡ k
    → rxchar_loop (segment c cs ∷ es) (suc n) eof hp
      ≡ rxchar_loop es k eof (record hp { rx = hp.rx ++ c ∷ cs })
unfolding rxchar_loop
rxchar_loop-short c cs es n k eof hp fits some_more still = rw (fits, some_more, still) refl

rxchar_loop-segments :
    (es : List Arrival) (eof : Bool) (hp : Http) (bs rest : Bytes)
    → AreSegments es
    → arrived es ≡ bs ++ rest
    → length hp.rx + length bs < hp.nrxbuf
    → (r : Behind rest) × (rxchar_loop es (length bs) eof hp
        ≡ ret (rx_all, received hp bs r.behind))
unfolding rxchar_loop
rxchar_loop-segments es eof hp [] rest h e room = (
  record { behind = es; segments = h; left = e },
  ap (λ t. ret (rx_all, record hp { rx = t; pending = es })) (sym (append-nil hp.rx)),
)
rxchar_loop-segments [] eof hp (b ∷ bs) rest h e room = absurd cc
rxchar_loop-segments (interrupted ∷ es) eof hp (b ∷ bs) rest h e room = elim h [ ]
rxchar_loop-segments (timed_out ∷ es) eof hp (b ∷ bs) rest h e room = elim h [ ]
rxchar_loop-segments (poll_failed ∷ es) eof hp (b ∷ bs) rest h e room = elim h [ ]
rxchar_loop-segments (closed ∷ es) eof hp (b ∷ bs) rest h e room = elim h [ ]
rxchar_loop-segments (read_failed ∷ es) eof hp (b ∷ bs) rest h e room = elim h [ ]
rxchar_loop-segments (segment c cs ∷ es) eof hp (b ∷ bs) rest h e room =
    let fits : ltb (length hp.rx + suc (length bs)) hp.nrxbuf ≡ true = ground (arith, room) in
    elim (Bool-cases (leb (suc (length bs)) (suc (length cs)))) [
      | inl all ↦
          let here : suc (length bs) ≤ suc (length cs) = ground (arith, all) in
          let (t, d) =
            split_append (suc (length bs)) (c ∷ cs) (arrived es) (b ∷ bs) rest e refl here in
          let left = drop (suc (length bs)) (c ∷ cs) in
          (
            record {
              behind = arriving left es;
              segments = arriving-AreSegments left es h;
              left = arrived-arriving left es ∙ d;
            },
            rw (fits, all)
                (ap (λ u. ret (rx_all, record hp { rx = hp.rx ++ u; pending = arriving left es }))
                  t),
          )
      | inr some_more ↦
          let short : suc (length cs) < suc (length bs) = ground (arith, some_more) in
          let (bs', f, g) = longer_append (c ∷ cs) (arrived es) (b ∷ bs) rest e short in
          let counted = ap length f ∙ length-append (c ∷ cs) bs' in
          let still : suc (length bs) - suc (length cs) ≡ length bs' = omega (arith, counted) in
          let joined = length-append hp.rx (c ∷ cs) in
          let (r, others) =
            rxchar_loop-segments es eof (record hp { rx = hp.rx ++ c ∷ cs }) bs' rest h g
              (omega (arith, room, counted, joined)) in
          let on = rxchar_loop-short c cs es (length bs) (length bs') eof hp fits some_more still in
          (r, on ∙ joined-received hp (c ∷ cs) bs' (b ∷ bs) r.behind f others)
    ]

-- Bytes that are there are received, however they are cut.
pub http_rxchar-segments :
    (hp : Http) (eof : Bool) (bs rest : Bytes)
    → AreSegments hp.pending
    → arrived hp.pending ≡ bs ++ rest
    → length hp.rx + length bs < hp.nrxbuf
    → (r : Behind rest) × (http_rxchar (length bs) eof hp ≡ ret (rx_all, received hp bs r.behind))
unfolding http_rxchar
http_rxchar-segments hp eof bs rest h e room =
    rxchar_loop-segments hp.pending eof hp bs rest h e room
