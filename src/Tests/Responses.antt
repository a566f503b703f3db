-- ===== src/Tests/Responses.antt =====
-- A response over HTTP/1, with a body of a given length and in chunks.
use vtest.Base.Int.{pos}
use vtest.Base.{
  Ensures, ◌<◌, ◌+◌, length, ◌≡◌, refl, List, [], ◌∷◌, ◌++◌, Bytes, codes, take, drop, true, false,
  none, some, ret, arith,
}
use vtest.Http1.Connection.Bounds.{Bounded, http_rxchar-Bounded}
use vtest.Http1.Connection.{http_rxchar}
use vtest.Http1.Header.{rxhdr_loop}
use vtest.Http1.Header.Rounds.{rxhdr_loop_enough}
use vtest.Http1.Send.{cmd_http_chunkedlen, cmd_http_expect_pattern}
use vtest.Http1.Send.Received.{
  sent_chunks, cmd_http_rxresp-cmd_http_chunked, cmd_http_rxresp-cmd_http_chunkedlen,
}
use vtest.Http1.Commands.{cmd_http_rxresp}
use vtest.Http1.Body.Length.{with_body}
use vtest.Http1.Commands.Response.{
  Response, IsResponse, message, with_response, cmd_http_rxresp-length,
}
use vtest.Http1.Connection.{Http, Arrival, arriving}
use vtest.Http1.Connection.Segments.{Behind}
use vtest.Http1.Header.{http_rxhdr, http_splitheader, http_find_header, http_count_header, no_hh}
use vtest.Http1.Header.Fields.{Field, http_find_header-http_count_header}
use vtest.Http1.Header.Receive.{with_header}
use vtest.Http1.Header.Split.{IsMessage, wire, hh_of}
use vtest.Http1.Header.Split.Ends.{http_rxhdr-http_splitheader}

-- What a server sends, in two segments
abbrev sent : Bytes → List Arrival
sent bs = arriving (take 7 bs) (arriving (drop 7 bs) [])

abbrev connection : Bytes → Http
connection bs = record {
  fatal = true;
  nrxbuf = 2048;
  rx = [];
  pending = sent bs;
  body = none;
  bodyl = pos 0;
  req = no_hh;
  resp = no_hh;
  head_method = false;
}

abbrev response : List Field → Response
response fs = record {
  protocol = codes "HTTP/1.1";
  status = codes "200";
  reason = codes "OK";
  fields = fs;
}

abbrev by_length : Response
by_length = response ((codes "Server", codes "s1") ∷ (codes "Content-Length", codes "12") ∷ [])

abbrev by_chunks : Response
by_chunks = response ((codes "Transfer-encoding", codes "Chunked") ∷ [])

by_length-IsMessage : IsMessage (message by_length)
by_length-IsMessage = record {
  first_word = (λ e. e, ground arith);
  second_word = (λ e. e, ground arith);
  third_dark = refl;
  third_text = ground arith;
  field_texts = ((λ e. e, ground arith), ((λ e. e, ground arith), record {}));
  few = omega arith;
}

by_length-IsResponse : IsResponse by_length
unfolding vtest.Macros.same_text
by_length-IsResponse = record {
  is_message = by_length-IsMessage;
  named = ((ground arith, refl), ((ground arith, refl), record {}));
  one_length = omega arith;
}

by_chunks-IsResponse : IsResponse by_chunks
unfolding vtest.Macros.same_text
by_chunks-IsResponse = record {
  is_message = record {
    first_word = (λ e. e, ground arith);
    second_word = (λ e. e, ground arith);
    third_dark = refl;
    third_text = ground arith;
    field_texts = ((λ e. e, ground arith), record {});
    few = omega arith;
  };
  named = ((ground arith, refl), record {});
  one_length = omega arith;
}

abbrev text : Bytes
text = codes "Hello world!"

abbrev next : Bytes
next = codes "HTTP"

abbrev whole : Http
whole = connection (wire (message by_length) ++ (text ++ next))

http_rxhdr-http_splitheader_example :
    (r : Behind (text ++ next)) × (http_rxhdr whole
      ≡ ret (some (with_header whole (wire (message by_length)) r.behind)))
    × (http_splitheader (wire (message by_length)) ≡ ret (hh_of (message by_length)))
http_rxhdr-http_splitheader_example =
    http_rxhdr-http_splitheader whole (message by_length) (text ++ next) by_length-IsMessage
      (record {}) refl (omega arith)

cmd_http_rxresp-length_example :
    (r : Behind next) × (cmd_http_rxresp true whole
      ≡ ret (some (with_body (with_response whole by_length []) text r.behind)))
unfolding vtest.Macros.same_text
cmd_http_rxresp-length_example =
    cmd_http_rxresp-length whole by_length 1 (2 ∷ []) text next by_length-IsResponse refl refl
      (ground arith) refl (omega arith) refl (record {}) refl (omega arith)

abbrev cookies : List Field
cookies =
    (codes "Set-Cookie", codes "a=1")
    ∷ (codes "Server", codes "s1")
    ∷ (codes "set-cookie", codes "b=2")
    ∷ []

http_find_header-http_count_header_example :
    (http_find_header
        (codes "Set-Cookie: a=1" ∷ codes "Server: s1" ∷ codes "set-cookie: b=2" ∷ [])
        (codes "SET-COOKIE")
      ≡ some (codes "a=1"))
    × (http_count_header
          (codes "Set-Cookie: a=1" ∷ codes "Server: s1" ∷ codes "set-cookie: b=2" ∷ [])
          (codes "SET-COOKIE")
        ≡ 2)
unfolding vtest.Macros.same_text
http_find_header-http_count_header_example =
    http_find_header-http_count_header (codes "SET-COOKIE") cookies (ground arith)
      ((ground arith, refl), ((ground arith, refl), ((ground arith, refl), record {})))

abbrev texts : List Bytes
texts = codes "Hello" ∷ codes "big wide world of tests" ∷ []

abbrev sent_texts : Http
sent_texts = connection (wire (message by_chunks) ++ (sent_chunks texts ++ next))

sent_texts-room : length (wire (message by_chunks)) + length (sent_chunks texts) < 2048
unfolding vtest.Http1.Send.cmd_http_chunked vtest.Http1.Send.hex_from
sent_texts-room = omega arith

cmd_http_rxresp-cmd_http_chunked_example :
    (r : Behind next) × (cmd_http_rxresp true sent_texts
      ≡ ret (
          some (
            with_body
              (with_response sent_texts by_chunks [])
              (codes "Hellobig wide world of tests")
              r.behind)))
unfolding vtest.Macros.same_text vtest.Http1.Send.cmd_http_chunked vtest.Http1.Send.hex_from
cmd_http_rxresp-cmd_http_chunked_example =
    cmd_http_rxresp-cmd_http_chunked sent_texts by_chunks (codes "Chunked") texts next
      by_chunks-IsResponse refl refl refl (ground arith) refl (record {}) refl
      (omega (arith, sent_texts-room))

abbrev pattern : Http
pattern =
    connection
      (wire (message by_chunks) ++ (cmd_http_chunkedlen 20 ++ cmd_http_chunkedlen 0 ++ next))

pattern-room :
    length (wire (message by_chunks)) + length (cmd_http_chunkedlen 20 ++ cmd_http_chunkedlen 0)
    < 2048
unfolding vtest.Http1.Send.cmd_http_chunkedlen vtest.Http1.Send.hex_from
    vtest.Http1.Send.fill_pattern vtest.Http1.Send.buf_bytes
pattern-room = omega arith

cmd_http_rxresp-cmd_http_chunkedlen_example :
    (r : Behind next) × (bs : Bytes) × (length bs ≡ 20)
    × (cmd_http_rxresp true pattern
        ≡ ret (some (with_body (with_response pattern by_chunks []) bs r.behind)))
    × (cmd_http_expect_pattern bs ≡ ret (record {}))
unfolding vtest.Macros.same_text vtest.Http1.Send.cmd_http_chunkedlen vtest.Http1.Send.hex_from
    vtest.Http1.Send.fill_pattern vtest.Http1.Send.buf_bytes
cmd_http_rxresp-cmd_http_chunkedlen_example =
    cmd_http_rxresp-cmd_http_chunkedlen pattern by_chunks (codes "Chunked") 19 next
      by_chunks-IsResponse refl refl refl (omega arith) refl (record {}) refl
      (omega (arith, pattern-room))

http_rxchar-Bounded_example : Ensures (Bounded 4 whole) (http_rxchar 4 false whole)
http_rxchar-Bounded_example = http_rxchar-Bounded 4 false whole

rxhdr_loop_enough_example : rxhdr_loop 2048 0 whole ≡ rxhdr_loop 3000 0 whole
rxhdr_loop_enough_example = rxhdr_loop_enough 2048 952 0 whole (omega arith) (omega arith)
