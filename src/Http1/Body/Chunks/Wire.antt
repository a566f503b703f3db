-- ===== src/Http1/Body/Chunks/Wire.antt =====
-- All chunks of a body, up to the last, as `http_swallow_body` of src/vtc_http.c receives them.
use vtest.Base.Int.{ℤ, pos, ltb_ℤ}
use vtest.Base.{
  ℕ, zero, suc, ◌+◌, ◌-◌, ◌<◌, ◌≡◌, refl, sym, ap, ◌∙◌, List, [], ◌∷◌, ◌++◌, append_assoc,
  append-nil, Bytes, codes, length, length-append, Bool, true, none, some, ret, arith, All,
}
use vtest.Http1.Body.{
  Next, finish, same_nocase, chunk_loop, http_rxchunk, swallow_chunks, swallow_from,
  http_swallow_body,
}
use vtest.Http1.Body.Chunks.{Chunk, IsChunk, chunk_line, chunk_wire, http_rxchunk-chunk}
use vtest.Http1.Body.Length.{
  minus_zero, zero_plus, with_body, IsAtBody, http_swallow_body-from, nothing_yet,
}
use vtest.Http1.Connection.{Http, Hh}
use vtest.Http1.Connection.Segments.{AreSegments, arrived, Behind, received}
use vtest.Http1.Header.{http_find_header}

-- Chunks with a byte at least, and the last chunk, which has none
abbrev pub chunks_wire : List Chunk → Chunk → Bytes
chunks_wire [] last = chunk_wire last
chunks_wire (c ∷ cs) last = chunk_wire c ++ chunks_wire cs last

abbrev pub all_bytes : List Chunk → Bytes
all_bytes [] = []
all_bytes (c ∷ cs) = c.bytes ++ all_bytes cs

abbrev pub IsFull : Chunk → Type 0
IsFull c = IsChunk c × (0 < length c.bytes)

abbrev pub IsLast : Chunk → Type 0
IsLast c = IsChunk c × (c.bytes ≡ [])

length-chunk_wire : (c : Chunk) → length c.bytes < length (chunk_wire c)
length-chunk_wire c = omega (
  arith,
  length-append (chunk_line c) (10 ∷ (c.bytes ++ 13 ∷ 10 ∷ [])),
  length-append c.bytes (13 ∷ 10 ∷ []),
)

-- A round of the loop, by what the chunk was
chunk_loop-last :
    (rounds body : ℕ) (k : ℤ → Http → Next) (ll : ℤ) (hp hp' : Http)
    → http_rxchunk hp ≡ ret (some (pos 0, hp'))
    → chunk_loop (suc rounds) body 0 0 k ll hp ≡ k ll hp'
unfolding chunk_loop
chunk_loop-last rounds body k ll hp hp' got = rw got refl

chunk_loop-full :
    (rounds body n : ℕ) (k : ℤ → Http → Next) (ll : ℤ) (hp hp' : Http)
    → http_rxchunk hp ≡ ret (some (pos n, hp'))
    → 0 < n
    → chunk_loop (suc rounds) body 0 0 k ll hp
      ≡ chunk_loop rounds body 0 0 k (pos (length hp'.rx - body)) hp'
unfolding chunk_loop
chunk_loop-full rounds body n k ll hp hp' got some_bytes =
    let goes_on : ltb_ℤ (pos 0) (pos n) ≡ true = ground (arith, some_bytes) in
    rw (got, goes_on)
      (ap (λ m. chunk_loop rounds body 0 0 k m hp') (minus_zero (length hp'.rx - body)))

chunk_loop-chunks :
    (rounds body : ℕ) (cs : List Chunk) (last : Chunk) (k : ℤ → Http → Next) (hp : Http)
    (rest : Bytes)
    → All IsFull cs
    → IsLast last
    → AreSegments hp.pending
    → arrived hp.pending ≡ chunks_wire cs last ++ rest
    → length hp.rx + length (chunks_wire cs last) < hp.nrxbuf
    → length (chunks_wire cs last) < rounds
    → (r : Behind rest) × (chunk_loop rounds body 0 0 k (pos (length hp.rx - body)) hp
        ≡ k (pos (length (hp.rx ++ all_bytes cs) - body)) (received hp (all_bytes cs) r.behind))
chunk_loop-chunks zero body cs last k hp rest h hl segs e room enough =
    absurd (omega (arith, enough))
chunk_loop-chunks (suc rounds) body [] last k hp rest h (is_chunk, no_bytes) segs e room enough =
    let (r, got) = http_rxchunk-chunk last hp rest is_chunk segs e (omega (arith, room)) in
    let ends : http_rxchunk hp ≡ ret (some (pos 0, received hp [] r.behind)) =
      got ∙ ap (λ bs. ret (some (pos (length bs), received hp bs r.behind))) no_bytes in
    (
      r,
      chunk_loop-last rounds body k (pos (length hp.rx - body)) hp (received hp [] r.behind) ends
          ∙ ap (λ t. k (pos (length t - body)) (received hp [] r.behind)) (sym (append-nil hp.rx)),
    )
chunk_loop-chunks (suc rounds) body (c ∷ cs) last k hp rest ((is_chunk, some_bytes), hs) hl segs e
      room enough =
    let sizes = length-append (chunk_wire c) (chunks_wire cs last) in
    let grown = length-append hp.rx c.bytes in
    let longer = length-chunk_wire c in
    let (r, got) =
      http_rxchunk-chunk c hp (chunks_wire cs last ++ rest) is_chunk segs
        (e ∙ append_assoc (chunk_wire c) (chunks_wire cs last) rest) (omega (arith, room, sizes)) in
    let hp' = received hp c.bytes r.behind in
    let (r', others) =
      chunk_loop-chunks rounds body cs last k hp' rest hs hl r.segments r.left
        (omega (arith, room, sizes, grown, longer)) (omega (arith, enough, sizes, longer)) in
    (
      r',
      chunk_loop-full rounds body (length c.bytes) k (pos (length hp.rx - body)) hp hp' got
            some_bytes
          ∙ others
          ∙ ap (λ t. k (pos (length t - body)) (record hp { rx = t; pending = r'.behind }))
              (append_assoc hp.rx c.bytes (all_bytes cs)),
    )

-- A header with Transfer-Encoding: chunked, in whatever case, and without Content-Length, and chunks on
-- the connection with their lengths in hexadecimal digits, below 2 ^ 31, the last one empty, for which
-- the buffer has room: `http_swallow_body` receives the bytes of all of them in order and nothing behind
-- them, however they are cut into segments, and sets `bodyl` to their number.
pub http_swallow_body-chunks_wire :
    (hh : Hh) (is_body : Bool) (coding : Bytes) (cs : List Chunk) (last : Chunk) (hp : Http)
    (rest : Bytes)
    → http_find_header hh.fields (codes "transfer-encoding") ≡ some coding
    → same_nocase coding (codes "chunked") ≡ true
    → http_find_header hh.fields (codes "content-length") ≡ none
    → All IsFull cs
    → IsLast last
    → IsAtBody hp
    → AreSegments hp.pending
    → arrived hp.pending ≡ chunks_wire cs last ++ rest
    → length hp.rx + length (chunks_wire cs last) < hp.nrxbuf
    → (r : Behind rest) × (http_swallow_body hh is_body 0 hp
        ≡ ret (some (pos 0, with_body hp (all_bytes cs) r.behind)))
unfolding swallow_from swallow_chunks
http_swallow_body-chunks_wire hh is_body coding cs last hp rest te chunked cl h hl at segs e room =
    let body = length hp.rx in
    let (r, got) =
      chunk_loop-chunks hp.nrxbuf body cs last (finish (pos 0)) hp rest h hl segs e room
        (omega (arith, room)) in
    let none_yet : pos (length hp.rx - body) ≡ pos 0 = ap pos (nothing_yet hp) in
    let grown : length (hp.rx ++ all_bytes cs) - body ≡ length (all_bytes cs) =
      omega (arith, length-append hp.rx (all_bytes cs)) in
    (
      r,
      http_swallow_body-from hh is_body hp at
          ∙ rw (swallow_from, te, chunked, cl, nothing_yet hp)
              (ap (λ ll. chunk_loop hp.nrxbuf body 0 0 (finish (pos 0)) ll hp) (sym none_yet)
                ∙ got
                ∙ ap (λ n. finish (pos 0) (pos n) (received hp (all_bytes cs) r.behind)) grown
                ∙ ap
                    (λ n.
                      ret
                        (some (pos 0, record (received hp (all_bytes cs) r.behind) { bodyl = n })))
                    (zero_plus (length (all_bytes cs)))),
    )
