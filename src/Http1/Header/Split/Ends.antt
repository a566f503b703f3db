-- ===== src/Http1/Header/Split/Ends.antt =====
-- The header of a message is what `http_rxhdr` of src/vtc_http.c receives, and `http_splitheader` splits.
use vtest.Base.{
  ℕ, ◌<◌, ◌≡◌, refl, ◌∙◌, List, [], ◌∷◌, ◌++◌, Bytes, length, true, some, ret, arith, All,
}
use vtest.Http1.Connection.{Http}
use vtest.Http1.Connection.Segments.{AreSegments, arrived, Behind}
use vtest.Http1.Header.{hdr_state, http_rxhdr, http_splitheader}
use vtest.Http1.Header.Receive.{ends_header, with_header, http_rxhdr-header}
use vtest.Http1.Header.Split.{
  Message, wire, lines, IsMessage, IsText, IsField, words_texts, hh_of, http_splitheader-wire,
}

hdr_state-text : (s c : ℕ) → IsText c → hdr_state s c ≡ some 0
unfolding hdr_state
hdr_state-text s c h = ground (arith, h)

ends_header-byte : (s c : ℕ) (cs : Bytes) → IsText c → ends_header s (c ∷ cs) ≡ ends_header 0 cs
ends_header-byte s c cs h = rw (ends_header, hdr_state-text s c h) refl

ends_header-text : (t rest : Bytes) → All IsText t → ends_header 0 (t ++ rest) ≡ ends_header 0 rest
ends_header-text [] rest h = refl
ends_header-text (c ∷ t) rest (h, hs) =
    ends_header-byte 0 c (t ++ rest) h ∙ ends_header-text t rest hs

ends_header-lines : (fs : List Bytes) → All IsField fs → ends_header 2 (lines fs) ≡ true
unfolding hdr_state
ends_header-lines [] h = refl
ends_header-lines ([] ∷ fs) ((some_byte, h), hs) = absurd (some_byte (record {}))
ends_header-lines ((c ∷ f) ∷ fs) ((some_byte, (h, hf)), hs) =
    ends_header-byte 2 c (f ++ 13 ∷ 10 ∷ lines fs) h
    ∙ ends_header-text f (13 ∷ 10 ∷ lines fs) hf
    ∙ ends_header-lines fs hs

ends_header-wire : (m : Message) → IsMessage m → ends_header 0 (wire m) ≡ true
unfolding hdr_state
ends_header-wire m h =
    let message = m.third ++ 13 ∷ 10 ∷ lines m.fields in
    ends_header-text m.first (32 ∷ (m.second ++ 32 ∷ message)) (words_texts m.first h.first_word.1)
    ∙ ends_header-text m.second (32 ∷ message) (words_texts m.second h.second_word.1)
    ∙ ends_header-text m.third (13 ∷ 10 ∷ lines m.fields) h.third_text
    ∙ ends_header-lines m.fields h.field_texts

-- A message whose first two strings are words, whose third does not begin with white space, with at most
-- 60 fields, none of them empty, and none with a 0 or a part of the end of a line in it, all of it shorter
-- than the receive buffer: however the connection cuts it into segments, none of them empty, `http_rxhdr`
-- receives its bytes and leaves those behind them, and `http_splitheader` gives its strings and its fields
-- back.
pub http_rxhdr-http_splitheader :
    (hp : Http) (m : Message) (rest : Bytes)
    → IsMessage m
    → AreSegments hp.pending
    → arrived hp.pending ≡ wire m ++ rest
    → length (wire m) < hp.nrxbuf
    → (r : Behind rest) × (http_rxhdr hp ≡ ret (some (with_header hp (wire m) r.behind)))
      × (http_splitheader (wire m) ≡ ret (hh_of m))
http_rxhdr-http_splitheader hp m rest h segs e room =
    let (r, got) = http_rxhdr-header hp (wire m) rest segs e room (ends_header-wire m h) in
    (r, got, http_splitheader-wire m h)
