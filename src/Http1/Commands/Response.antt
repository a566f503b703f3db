-- ===== src/Http1/Commands/Response.antt =====
-- A whole response, as `cmd_http_rxresp` of src/vtc_http.c receives it.
use vtest.Base.Int.{ℤ, pos}
use vtest.Base.{
  ℕ, ◌+◌, ◌^◌, ◌<◌, ◌≡◌, refl, ap, ◌∙◌, List, [], ◌∷◌, ◌++◌, Bytes, codes, length, map, true, false,
  ltb, if◌then◌else◌, some, ret, ◌>>=◌, arith, All,
}
use vtest.Http1.Body.{same_nocase, http_swallow_body}
use vtest.Http1.Strtoul.{value_from}
use vtest.Http1.Commands.{is_200, drop_result, rx_header, rxresp_body, cmd_http_rxresp}
use vtest.Http1.Body.Chunks.{Chunk}
use vtest.Http1.Body.Chunks.Wire.{
  chunks_wire, all_bytes, IsFull, IsLast, http_swallow_body-chunks_wire,
}
use vtest.Http1.Strtoul.Digits.{numeral, Below}
use vtest.Http1.Body.Length.{with_body, http_swallow_body-length}
use vtest.Http1.Connection.{Http, Arrival}
use vtest.Http1.Connection.Segments.{AreSegments, arrived, Behind}
use vtest.Http1.Header.{http_rxhdr, http_splitheader, http_find_header, http_count_header}
use vtest.Http1.Header.Fields.{
  Field, IsField, IsNameByte, field_line, values_of, first_of, http_find_header-http_count_header,
}
use vtest.Http1.Header.Receive.{with_header}
use vtest.Http1.Header.Split.{Message, wire, IsMessage, hh_of}
use vtest.Http1.Header.Split.Ends.{http_rxhdr-http_splitheader}

-- The first line of a response, and its fields
pub record Response : Type 0 where
  pub protocol : Bytes
  pub status : Bytes
  pub reason : Bytes
  pub fields : List Field

abbrev pub message : Response → Message
message p = record {
  first = p.protocol;
  second = p.status;
  third = p.reason;
  fields = map field_line p.fields;
}

-- A message whose fields have names, one of them at most Content-Length
pub record IsResponse (p : Response) : Type 0 where
  pub is_message : IsMessage (message p)
  pub named : All IsField p.fields
  pub one_length : length (values_of (codes "content-length") p.fields) < 2

-- What `cmd_http_rxresp` leaves when it got the header
abbrev pub with_response : Http → Response → List Arrival → Http
with_response hp p es = record (with_header hp (wire (message p)) es) { resp = hh_of (message p) }

length_name : All IsNameByte (codes "content-length")
length_name = ground arith

written_length_name : All IsNameByte (codes "Content-Length")
written_length_name = ground arith

coding_name : All IsNameByte (codes "transfer-encoding")
coding_name = ground arith

-- The header is received, and the rest is `http_swallow_body`.
cmd_http_rxresp-header :
    (hp hp' : Http) (p : Response) (rest : Bytes) (es : List Arrival) (i : ℤ)
    → IsResponse p
    → hp.head_method ≡ false
    → http_rxhdr hp ≡ ret (some (with_header hp (wire (message p)) es))
    → http_splitheader (wire (message p)) ≡ ret (hh_of (message p))
    → http_swallow_body (hh_of (message p)) (is_200 (some p.status)) 0 (with_response hp p es)
      ≡ ret (some (i, hp'))
    → cmd_http_rxresp true hp ≡ ret (some hp')
unfolding cmd_http_rxresp rx_header rxresp_body
cmd_http_rxresp-header hp hp' p rest es i h no_head got split body =
    let counted =
      (http_find_header-http_count_header (codes "Content-Length") p.fields written_length_name
        h.named).1 in
    let one : ltb 1 (http_count_header (map field_line p.fields) (codes "Content-Length")) ≡ false =
      ground (arith, counted, h.one_length) in
    let hp1 = with_response hp p es in
    let swallowed = http_swallow_body (hh_of (message p)) (is_200 (some p.status)) 0 hp1 in
    rw (got, split, one)
      (ap (λ b. if b then ret (some hp1) else (swallowed >>= drop_result)) no_head
        ∙ ap (λ o. o >>= drop_result) body)

-- The value that is found for a name
found :
    (hdr : Bytes) (p : Response) (vs : List Bytes)
    → All IsNameByte hdr
    → IsResponse p
    → values_of hdr p.fields ≡ vs
    → http_find_header (map field_line p.fields) hdr ≡ first_of vs
found hdr p vs h is_response e =
    (http_find_header-http_count_header hdr p.fields h is_response.named).0 ∙ ap first_of e

-- A response, whose header has a Content-Length in digits, below 2 ^ 31, and no Transfer-Encoding, for a
-- request other than HEAD, with at least as many bytes behind it and room for all in the buffer:
-- `rxresp` gets the header and exactly these bytes as the body, however they are cut into segments.
pub cmd_http_rxresp-length :
    (hp : Http) (p : Response) (d : ℕ) (ds : List ℕ) (bs rest : Bytes)
    → IsResponse p
    → values_of (codes "transfer-encoding") p.fields ≡ []
    → values_of (codes "content-length") p.fields ≡ numeral (d ∷ ds) ∷ []
    → All (Below 10) (d ∷ ds)
    → value_from 10 0 (d ∷ ds) ≡ length bs
    → length bs < 2 ^ 31
    → hp.head_method ≡ false
    → AreSegments hp.pending
    → arrived hp.pending ≡ wire (message p) ++ (bs ++ rest)
    → length (wire (message p)) + length bs < hp.nrxbuf
    → (r : Behind rest) × (cmd_http_rxresp true hp
        ≡ ret (some (with_body (with_response hp p []) bs r.behind)))
cmd_http_rxresp-length hp p d ds bs rest h te cl below counts small no_head segs e room =
    let (r, got, split) =
      http_rxhdr-http_splitheader hp (message p) (bs ++ rest) h.is_message segs e
        (omega (arith, room)) in
    let hp' = with_response hp p r.behind in
    let (r', body) =
      http_swallow_body-length (hh_of (message p)) (is_200 (some p.status)) d ds hp' bs rest
        (found (codes "transfer-encoding") p [] coding_name h te)
        (found (codes "content-length") p (numeral (d ∷ ds) ∷ []) length_name h cl) below counts
        small refl r.segments r.left room in
    (
      r',
      cmd_http_rxresp-header hp (with_body hp' bs r'.behind) p (bs ++ rest) r.behind (pos 0) h
          no_head got split body,
    )

-- A response, whose header has Transfer-Encoding: chunked, in whatever case, and no Content-Length, for a
-- request other than HEAD, with a body in chunks behind it and room for all in the buffer: `rxresp` gets
-- the header and the bytes of the chunks in order as the body, however they are cut into segments, and
-- nothing behind them.
pub cmd_http_rxresp-chunks_wire :
    (hp : Http) (p : Response) (coding : Bytes) (cs : List Chunk) (last : Chunk) (rest : Bytes)
    → IsResponse p
    → values_of (codes "transfer-encoding") p.fields ≡ coding ∷ []
    → same_nocase coding (codes "chunked") ≡ true
    → values_of (codes "content-length") p.fields ≡ []
    → All IsFull cs
    → IsLast last
    → hp.head_method ≡ false
    → AreSegments hp.pending
    → arrived hp.pending ≡ wire (message p) ++ (chunks_wire cs last ++ rest)
    → length (wire (message p)) + length (chunks_wire cs last) < hp.nrxbuf
    → (r : Behind rest) × (cmd_http_rxresp true hp
        ≡ ret (some (with_body (with_response hp p []) (all_bytes cs) r.behind)))
cmd_http_rxresp-chunks_wire hp p coding cs last rest h te chunked cl full is_last no_head segs e
      room =
    let (r, got, split) =
      http_rxhdr-http_splitheader hp (message p) (chunks_wire cs last ++ rest) h.is_message segs e
        (omega (arith, room)) in
    let hp' = with_response hp p r.behind in
    let (r', body) =
      http_swallow_body-chunks_wire (hh_of (message p)) (is_200 (some p.status)) coding cs last hp'
        rest (found (codes "transfer-encoding") p (coding ∷ []) coding_name h te) chunked
        (found (codes "content-length") p [] length_name h cl) full is_last refl r.segments r.left
        room in
    (
      r',
      cmd_http_rxresp-header hp (with_body hp' (all_bytes cs) r'.behind) p
          (chunks_wire cs last ++ rest) r.behind (pos 0) h no_head got split body,
    )
