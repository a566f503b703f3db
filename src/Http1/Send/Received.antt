-- ===== src/Http1/Send/Received.antt =====
-- What one side sends with `chunked` and `chunkedlen` of src/vtc_http.c, the other side receives.
use vtest.Base.{
  ℕ, suc, ◌+◌, ◌^◌, ◌<◌, ◌≡◌, refl, sym, ap, ◌∙◌, List, [], ◌∷◌, ◌++◌, append-nil, Bytes, codes,
  length, map, true, false, some, ret, arith, All,
}
use vtest.Http1.Body.{same_nocase}
use vtest.Http1.Commands.{cmd_http_rxresp}
use vtest.Http1.Body.Chunks.{chunk_wire}
use vtest.Http1.Body.Chunks.Wire.{chunks_wire, all_bytes, IsFull}
use vtest.Http1.Body.Length.{with_body}
use vtest.Http1.Commands.Response.{
  Response, IsResponse, message, with_response, cmd_http_rxresp-chunks_wire,
}
use vtest.Http1.Connection.{Http}
use vtest.Http1.Connection.Segments.{AreSegments, arrived, Behind}
use vtest.Http1.Header.Fields.{values_of}
use vtest.Http1.Header.Split.{wire}
use vtest.Http1.Send.{
  printed_hex, nl, buf_bytes, hex_from, cmd_http_chunked, cmd_http_chunkedlen,
  cmd_http_expect_pattern,
}
use vtest.Http1.Send.Hex.{chunk_of, chunk_of-IsChunk, chunk_of-wire}
use vtest.Http1.Send.Pattern.{
  length-buf_bytes, fill_pattern-whole, cmd_http_expect_pattern-buf_bytes,
}

-- The texts, each with a `chunked` of its own, and a `chunked` of the empty text behind them
abbrev pub sent_chunks : List Bytes → Bytes
sent_chunks [] = cmd_http_chunked []
sent_chunks (t ∷ ts) = cmd_http_chunked t ++ sent_chunks ts

abbrev pub joined : List Bytes → Bytes
joined [] = []
joined (t ∷ ts) = t ++ joined ts

-- A text of a byte at least
abbrev pub IsSent : Bytes → Type 0
IsSent t = (0 < length t) × (length t < 2 ^ 31)

cmd_http_chunked-chunk : (t : Bytes) → chunk_wire (chunk_of t) ≡ cmd_http_chunked t
unfolding cmd_http_chunked
cmd_http_chunked-chunk t = chunk_of-wire t

sent_chunks-wire : (ts : List Bytes) → chunks_wire (map chunk_of ts) (chunk_of []) ≡ sent_chunks ts
sent_chunks-wire [] = cmd_http_chunked-chunk []
sent_chunks-wire (t ∷ ts) =
    ap (λ w. w ++ chunks_wire (map chunk_of ts) (chunk_of [])) (cmd_http_chunked-chunk t)
    ∙ ap (λ w. cmd_http_chunked t ++ w) (sent_chunks-wire ts)

all_bytes-joined : (ts : List Bytes) → all_bytes (map chunk_of ts) ≡ joined ts
all_bytes-joined [] = refl
all_bytes-joined (t ∷ ts) = ap (λ w. t ++ w) (all_bytes-joined ts)

sent_IsFull : (ts : List Bytes) → All IsSent ts → All IsFull (map chunk_of ts)
sent_IsFull [] h = h
sent_IsFull (t ∷ ts) (h, hs) = ((chunk_of-IsChunk t h.1, h.0), sent_IsFull ts hs)

-- A response with Transfer-Encoding: chunked, in whatever case, and without Content-Length, for a request
-- other than HEAD, and behind it texts, none of them empty and each shorter than 2 ^ 31, that the other
-- side sends with `chunked`, then `chunked` of the empty text; the buffer has room for all: `rxresp` gets
-- the texts one behind the other as the body, however the connection cuts them into segments, and leaves
-- what comes next.
pub cmd_http_rxresp-cmd_http_chunked :
    (hp : Http) (p : Response) (coding : Bytes) (ts : List Bytes) (rest : Bytes)
    → IsResponse p
    → values_of (codes "transfer-encoding") p.fields ≡ coding ∷ []
    → same_nocase coding (codes "chunked") ≡ true
    → values_of (codes "content-length") p.fields ≡ []
    → All IsSent ts
    → hp.head_method ≡ false
    → AreSegments hp.pending
    → arrived hp.pending ≡ wire (message p) ++ (sent_chunks ts ++ rest)
    → length (wire (message p)) + length (sent_chunks ts) < hp.nrxbuf
    → (r : Behind rest) × (cmd_http_rxresp true hp
        ≡ ret (some (with_body (with_response hp p []) (joined ts) r.behind)))
cmd_http_rxresp-cmd_http_chunked hp p coding ts rest h te chunked cl sent no_head segs e room =
    let as_sent = sent_chunks-wire ts in
    let (r, got) =
      cmd_http_rxresp-chunks_wire hp p coding (map chunk_of ts) (chunk_of []) rest h te chunked cl
        (sent_IsFull ts sent) (chunk_of-IsChunk [] (omega arith), refl) no_head segs
        (e ∙ ap (λ w. wire (message p) ++ (w ++ rest)) (sym as_sent))
        (omega (arith, room, ap length as_sent)) in
    (
      r,
      got
          ∙ ap (λ bs. ret (some (with_body (with_response hp p []) bs r.behind)))
              (all_bytes-joined ts),
    )

-- `chunkedlen` sends the chunk of its pattern.
cmd_http_chunkedlen-cmd_http_chunked :
    (len : ℕ) → cmd_http_chunkedlen (suc len) ≡ cmd_http_chunked (buf_bytes 0 (suc len))
unfolding cmd_http_chunkedlen cmd_http_chunked
cmd_http_chunkedlen-cmd_http_chunked len =
    ap (λ bs. printed_hex (suc len) ++ nl ++ bs ++ nl) (fill_pattern-whole (suc len))
    ∙ ap (λ n. printed_hex n ++ nl ++ buf_bytes 0 (suc len) ++ nl)
        (sym (length-buf_bytes 0 (suc len)))

cmd_http_chunkedlen-last : cmd_http_chunkedlen 0 ≡ cmd_http_chunked []
unfolding cmd_http_chunkedlen cmd_http_chunked hex_from
cmd_http_chunkedlen-last = refl

-- A response with Transfer-Encoding: chunked, in whatever case, and without Content-Length, for a request
-- other than HEAD, and behind it what the other side sends with `chunkedlen` of a number from 1 up to
-- 2 ^ 31 - 1, then `chunkedlen 0`; the buffer has room for all: `rxresp` gets a body of so many bytes,
-- and `expect_pattern` accepts it.
pub cmd_http_rxresp-cmd_http_chunkedlen :
    (hp : Http) (p : Response) (coding : Bytes) (len : ℕ) (rest : Bytes)
    → IsResponse p
    → values_of (codes "transfer-encoding") p.fields ≡ coding ∷ []
    → same_nocase coding (codes "chunked") ≡ true
    → values_of (codes "content-length") p.fields ≡ []
    → suc len < 2 ^ 31
    → hp.head_method ≡ false
    → AreSegments hp.pending
    → arrived hp.pending
      ≡ wire (message p) ++ (cmd_http_chunkedlen (suc len) ++ cmd_http_chunkedlen 0 ++ rest)
    → length (wire (message p)) + length (cmd_http_chunkedlen (suc len) ++ cmd_http_chunkedlen 0)
      < hp.nrxbuf
    → (r : Behind rest) × (bs : Bytes) × (length bs ≡ suc len)
      × (cmd_http_rxresp true hp ≡ ret (some (with_body (with_response hp p []) bs r.behind)))
      × (cmd_http_expect_pattern bs ≡ ret (record {}))
cmd_http_rxresp-cmd_http_chunkedlen hp p coding len rest h te chunked cl small no_head segs e room =
    let text = buf_bytes 0 (suc len) in
    let size = length-buf_bytes 0 (suc len) in
    let as_sent : cmd_http_chunkedlen (suc len) ++ cmd_http_chunkedlen 0 ≡ sent_chunks (text ∷ []) =
      ap (λ w. w ++ cmd_http_chunkedlen 0) (cmd_http_chunkedlen-cmd_http_chunked len)
      ∙ ap (λ w. cmd_http_chunked text ++ w) cmd_http_chunkedlen-last in
    let (r, got) =
      cmd_http_rxresp-cmd_http_chunked hp p coding (text ∷ []) rest h te chunked cl
        ((omega (arith, size), omega (arith, size, small)), record {}) no_head segs
        (e ∙ ap (λ w. wire (message p) ++ (w ++ rest)) as_sent)
        (omega (arith, room, ap length as_sent)) in
    (
      r,
      text,
      size,
      got ∙ ap (λ bs. ret (some (with_body (with_response hp p []) bs r.behind))) (append-nil text),
      cmd_http_expect_pattern-buf_bytes (suc len),
    )
