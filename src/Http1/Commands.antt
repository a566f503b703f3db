-- ===== src/Http1/Commands.antt =====
-- The commands of src/vtc_http.c that receive a message or a part of one.
pub mod Response
use vtest.Base.Int.{ℤ, pos, negsuc, ◌+ℤ◌, ◌-ℤ◌, pos_part, ltb_ℤ, signed32}
use vtest.Base.{
  ℕ, zero, suc, ◌+◌, ◌-◌, ◌*◌, ◌^◌, ◌%◌, List, [], ◌∷◌, ◌++◌, Bytes, codes, length, take, drop, map,
  Bool, true, false, not, ◌&&◌, ◌||◌, ◌==◌, ltb, leb, if◌then◌else◌, Option, none, some, Outcome,
  ret, aborted, undefined, ◌>>=◌,
}
use vtest.Http1.Connection.{Http, Hh, Rx, rx_all, rx_eof, rx_error, rx_waits, http_rxchar, complain}
use vtest.Http1.Header.{
  vct_islws, peek, skip, vct_iscrlf, lower, last_byte, http_rxhdr, http_splitheader,
  http_find_header, http_count_header,
}
use vtest.Macros.{same_text}
use vtest.Http1.Body.{Next, http_rxchunk, http_swallow_body}

-- strcmp(hp->resp[1], "200") == 0
abbrev pub is_200 : Option Bytes → Bool
is_200 none = false
is_200 (some s) = same_text s (codes "200")

abbrev pub is_null : Option Bytes → Bool
is_null none = true
is_null (some s) = false

-- The result of `http_swallow_body` is not looked at.
abbrev pub drop_result : Option (ℤ × Http) → Outcome (Option Http)
drop_result none = ret none
drop_result (some r) = ret (some r.1)

-- The header of a request or of a response is received and split; none if that waits for ever.
pub rx_header : Bool → Http → Outcome (Option Http)
rx_header is_req hp = http_rxhdr hp >>= λ o. elim o [
  | none ↦ ret none
  | some hp' ↦ http_splitheader hp'.rx >>= λ hh.
      let hp'' = if is_req then record hp' { req = hh } else record hp' { resp = hh } in
      if ltb 1 (http_count_header hh.fields (codes "Content-Length"))
      then aborted
      else ret (some hp'')
]

-- What is done where the header has been received
abbrev pub when_some : (Http → Outcome (Option Http)) → Option Http → Outcome (Option Http)
when_some k none = ret none
when_some k (some hp) = k hp

-- The body of a response, if it has one
pub rxresp_body : Bool → Http → Outcome (Option Http)
rxresp_body has_obj hp =
    let body = http_swallow_body hp.resp (is_200 hp.resp.second) 0 hp >>= drop_result in
    if not has_obj || ((is_null hp.resp.first || is_null hp.resp.second) || hp.head_method)
    then ret (some hp)
    else body

-- `cmd_http_rxresp`, behind its arguments; none if it waits for ever
pub cmd_http_rxresp : Bool → Http → Outcome (Option Http)
cmd_http_rxresp has_obj hp = rx_header false hp >>= when_some (rxresp_body has_obj)

pub cmd_http_rxresphdrs : Http → Outcome (Option Http)
cmd_http_rxresphdrs hp = rx_header false hp

pub cmd_http_rxreq : Http → Outcome (Option Http)
cmd_http_rxreq hp =
    rx_header true hp >>= when_some (λ hp'. http_swallow_body hp'.req false 0 hp' >>= drop_result)

pub cmd_http_rxreqhdrs : Http → Outcome (Option Http)
cmd_http_rxreqhdrs hp = rx_header true hp

pub cmd_http_rxreqbody : Http → Outcome (Option Http)
cmd_http_rxreqbody hp = http_swallow_body hp.req false 0 hp >>= drop_result

-- With the value of `-max`, which is not negative here
pub cmd_http_rxrespbody : ℕ → Http → Outcome (Option Http)
cmd_http_rxrespbody max hp = http_swallow_body hp.resp true max hp >>= drop_result

abbrev body_length : Option ℕ → Http → Outcome (Option Http)
body_length none hp = undefined
body_length (some body) hp = ret (some (record hp { bodyl = pos (length hp.rx - body) }))

-- `cmd_http_rxchunk`, which sets `bodyl` at the last chunk
pub cmd_http_rxchunk : Http → Outcome (Option Http)
cmd_http_rxchunk hp = http_rxchunk hp >>= λ o. elim o [
  | none ↦ ret none
  | some (i, hp') ↦ elim i [
    | pos n ↦ if n == 0 then body_length hp'.body hp' else ret (some hp')
    | negsuc n ↦ ret (some hp')
  ]
]
