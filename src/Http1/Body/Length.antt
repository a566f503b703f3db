-- ===== src/Http1/Body/Length.antt =====
-- A body whose length the header gives, as `http_swallow_body` of src/vtc_http.c receives it.
use vtest.Base.Int.{ℤ, pos, ◌+ℤ◌, ◌-ℤ◌, pos_part, signed32}
use vtest.Base.{
  ℕ, ◌+◌, ◌-◌, ◌^◌, ◌%◌, ◌<◌, ◌≡◌, refl, sym, ap, ◌∙◌, List, [], ◌∷◌, ◌++◌, Bytes, codes, length,
  append-nil, Bool, true, false, ltb, none, some, ret, undefined, arith, All, inl,
}
use vtest.Http1.Body.{
  Next, int_of, wanted_length, when_all, finish, swallow_length, swallow_from, http_swallow_body,
}
use vtest.Http1.Strtoul.{value_from, strtoul}
use vtest.Http1.Strtoul.Digits.{numeral, Below, strtoul-numeral}
use vtest.Http1.Connection.{Http, Hh, Arrival, http_rxchar}
use vtest.Http1.Connection.Segments.{AreSegments, arrived, Behind, received, http_rxchar-segments}
use vtest.Http1.Header.{http_find_header}

pub signed32-small : (v : ℕ) → v < 2 ^ 31 → signed32 (v % 2 ^ 32) ≡ pos v
signed32-small v h =
    let whole : v % 2 ^ 32 ≡ v = omega (arith, h) in
    let low : ltb v (2 ^ 31) ≡ true = ground (arith, h) in rw (whole, low) refl

int_of-numeral :
    (d : ℕ) (ds : List ℕ)
    → All (Below 10) (d ∷ ds)
    → value_from 10 0 (d ∷ ds) < 2 ^ 31
    → int_of (numeral (d ∷ ds)) ≡ pos (value_from 10 0 (d ∷ ds))
int_of-numeral d ds h small =
    let v = value_from 10 0 (d ∷ ds) in
    let read = strtoul-numeral 10 d ds [] (inl refl) h (record {}) (omega (arith, small)) in
    let whole = append-nil (numeral (d ∷ ds)) in
    ap (λ q. elim (strtoul 10 q) as (λ _. ℤ) [ none ↦ pos 0 | some p ↦ signed32 (p.0 % 2 ^ 32) ])
      (sym whole)
    ∙ rw read (signed32-small v small)

pub minus_zero : (v : ℕ) → pos v -ℤ pos 0 ≡ pos v
unfolding ◌-ℤ◌
minus_zero v = ground arith

pub zero_plus : (v : ℕ) → pos 0 +ℤ pos v ≡ pos v
unfolding ◌+ℤ◌
zero_plus v = ground arith

-- What `http_swallow_body` leaves of a body
abbrev pub with_body : Http → Bytes → List Arrival → Http
with_body hp bs es = record hp { rx = hp.rx ++ bs; pending = es; bodyl = pos (length bs) }

swallow_length-numeral :
    (d : ℕ) (ds : List ℕ) (hp : Http) (bs rest : Bytes)
    → All (Below 10) (d ∷ ds)
    → value_from 10 0 (d ∷ ds) ≡ length bs
    → length bs < 2 ^ 31
    → AreSegments hp.pending
    → arrived hp.pending ≡ bs ++ rest
    → length hp.rx + length bs < hp.nrxbuf
    → (r : Behind rest) × (swallow_length 0 0 (numeral (d ∷ ds)) hp
        ≡ ret (some (pos 0, with_body hp bs r.behind)))
unfolding swallow_length
swallow_length-numeral d ds hp bs rest h counts small segs e room =
    let (r, got) = http_rxchar-segments hp false bs rest segs e room in
    let number = int_of-numeral d ds h (omega (arith, counts, small)) ∙ ap pos counts in
    let all : wanted_length 0 0 (int_of (numeral (d ∷ ds))) ≡ pos (length bs) =
      ap (wanted_length 0 0) number ∙ minus_zero (length bs) in
    (
      r,
      ap (λ ll. when_all (http_rxchar (pos_part ll) false hp) (finish (pos 0) ll)) all
          ∙ ap (λ o. when_all o (finish (pos 0) (pos (length bs)))) got
          ∙ ap (λ n. ret (some (pos 0, record (received hp bs r.behind) { bodyl = n })))
              (zero_plus (length bs)),
    )

-- Nothing of the body has been received yet.
abbrev pub IsAtBody : Http → Type 0
IsAtBody hp = hp.body ≡ some (length hp.rx)

pub http_swallow_body-from :
    (hh : Hh) (is_body : Bool) (hp : Http)
    → IsAtBody hp
    → http_swallow_body hh is_body 0 hp ≡ swallow_from (length hp.rx) hh is_body 0 hp
unfolding http_swallow_body
http_swallow_body-from hh is_body hp at =
    ap
      (λ o. elim o as (λ _. Next) [
        | none ↦ undefined
        | some body ↦ swallow_from body hh is_body 0 hp
      ])
      at

pub nothing_yet : (hp : Http) → length hp.rx - length hp.rx ≡ 0
nothing_yet hp = omega arith

-- A header without Transfer-Encoding and with a Content-Length in digits, of a length below 2 ^ 31 for
-- which the buffer has room, and at least as many bytes on the connection: `http_swallow_body`
-- receives exactly these, however they are cut into segments, and sets `bodyl` to the length.
pub http_swallow_body-length :
    (hh : Hh) (is_body : Bool) (d : ℕ) (ds : List ℕ) (hp : Http) (bs rest : Bytes)
    → http_find_header hh.fields (codes "transfer-encoding") ≡ none
    → http_find_header hh.fields (codes "content-length") ≡ some (numeral (d ∷ ds))
    → All (Below 10) (d ∷ ds)
    → value_from 10 0 (d ∷ ds) ≡ length bs
    → length bs < 2 ^ 31
    → IsAtBody hp
    → AreSegments hp.pending
    → arrived hp.pending ≡ bs ++ rest
    → length hp.rx + length bs < hp.nrxbuf
    → (r : Behind rest) × (http_swallow_body hh is_body 0 hp
        ≡ ret (some (pos 0, with_body hp bs r.behind)))
unfolding swallow_from
http_swallow_body-length hh is_body d ds hp bs rest te cl h counts small at segs e room =
    let (r, got) = swallow_length-numeral d ds hp bs rest h counts small segs e room in
    (r, http_swallow_body-from hh is_body hp at ∙ rw (swallow_from, te, cl, nothing_yet hp) got)
