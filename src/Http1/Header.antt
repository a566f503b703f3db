-- ===== src/Http1/Header.antt =====
-- The header of a message, as src/vtc_http.c receives it, splits it, and looks for fields in it. The
-- functions on single characters are those of src/lib/vct.h.
pub mod Split
pub mod Receive
pub mod Fields
pub mod Rounds
use vtest.Base.{
  ℕ, zero, suc, ◌+◌, ◌-◌, List, [], ◌∷◌, ◌++◌, Bytes, length, drop, Bool, true, false, not, ◌&&◌,
  ◌||◌, ◌==◌, leb, if◌then◌else◌, Option, none, some, Outcome, ret, aborted, undefined, ◌>>=◌,
  c_string,
}
use vtest.Http1.Connection.{Http, Hh, Rx, rx_all, rx_eof, rx_error, rx_waits, http_rxchar, complain}

-- vct_issp: a space or a tabulator
abbrev pub vct_issp : ℕ → Bool
vct_issp c = (c == 32) || (c == 9)

-- vct_islws: one of these, or a part of the end of a line
abbrev pub vct_islws : ℕ → Bool
vct_islws c = vct_issp c || ((c == 13) || (c == 10))

-- *p, which is the terminator 0 behind the bytes that were received
abbrev pub peek : Bytes → ℕ
peek [] = 0
peek (c ∷ cs) = c

unfoldable pub vct_iscrlf : Bytes → ℕ
vct_iscrlf [] = 0
vct_iscrlf (c ∷ cs) = if (c == 13) && (peek cs == 10) then 2 else if c == 10 then 1 else 0

abbrev pub vct_skipcrlf : Bytes → Bytes
vct_skipcrlf p = drop (vct_iscrlf p) p

-- while (test(*p)) p++;
unfoldable pub skip : (ℕ → Bool) → Bytes → Bytes
skip test [] = []
skip test (c ∷ cs) = let more = skip test cs in if test c then more else c ∷ cs

-- while (!vct_islws(*p)) p++; with no white space the pointer leaves what was received.
pub to_lws : Bytes → Outcome (Bytes × Bytes)
to_lws [] = undefined
to_lws (c ∷ cs) =
    let more = to_lws cs >>= λ r. ret (c ∷ r.0, r.1) in
    if vct_islws c then ret ([], c ∷ cs) else more

-- while (!vct_iscrlf(p, hp->rx_e)) p++;
pub to_crlf : Bytes → Outcome (Bytes × Bytes)
to_crlf [] = undefined
to_crlf (c ∷ cs) =
    let more = to_crlf cs >>= λ r. ret (c ∷ r.0, r.1) in
    if vct_iscrlf (c ∷ cs) == 0 then more else ret ([], c ∷ cs)

-- while (*p != '\0' && !vct_iscrlf(p, hp->rx_e)) p++;
pub to_end : Bytes → Bytes × Bytes
to_end [] = ([], [])
to_end (c ∷ cs) =
    let (f, rest) = to_end cs in
    if not (c == 0) && (vct_iscrlf (c ∷ cs) == 0) then (c ∷ f, rest) else ([], c ∷ cs)

-- The loop over the fields, with so many elements of `hh` left, and what it leaves to read
pub split_fields : ℕ → Bytes → Outcome (List Bytes × Bytes)
split_fields free [] = ret ([], [])
split_fields zero (c ∷ cs) = if c == 0 then ret ([], c ∷ cs) else aborted
split_fields (suc free) (c ∷ cs) =
    let (f, rest) = to_end cs in
    let more = split_fields free (vct_skipcrlf rest) >>= λ r. ret ((c ∷ f) ∷ r.0, r.1) in
    if (c == 0) || not (vct_iscrlf (c ∷ cs) == 0)
    then ret ([], c ∷ cs)
    else if peek rest == 0
    then ret ((c ∷ f) ∷ [], rest)
    else more

abbrev pub no_hh : Hh
no_hh = record { first = none; second = none; third = none; fields = [] }

-- The rest of the first line, from behind URL or status on: the third string, and the text behind the
-- line
pub split_third : Bytes → Outcome (Option Bytes × Bytes)
split_third p =
    let message =
      to_crlf (skip vct_issp (drop 1 p)) >>= λ r. ret (some (c_string r.0), vct_skipcrlf r.1) in
    if vct_iscrlf p == 0 then message else ret (none, vct_skipcrlf p)

abbrev pub must {ℓ} : {A : Type ℓ} → Bool → Outcome A → Outcome A
must true m = m
must false m = aborted

-- The fields, and what has to hold at the end. The function then walks over `hh` up to the first NULL
-- behind the third string, and with all 64 elements in use it walks out of the array.
pub split_rest : Bytes → Bytes → Option Bytes → Bytes → Outcome Hh
split_rest a b c p = split_fields 61 p >>= λ r. must (peek (vct_skipcrlf r.1) == 0) (
    if length r.0 == 61
    then undefined
    else ret (record { first = some a; second = some b; third = c; fields = r.0 }))

-- `http_splitheader`, of the bytes between `rx_b` and `rx_p`
pub http_splitheader : Bytes → Outcome Hh
http_splitheader [] = ret no_hh
http_splitheader (c ∷ cs) =
    let split = (do
      (a, p) ← to_lws (skip vct_islws (c ∷ cs))
      must (vct_iscrlf p == 0) (
          let q = skip vct_issp (drop 1 p) in
          must (vct_iscrlf q == 0) (do
            (b, q') ← to_lws q
            (third, rest) ← split_third q'
            split_rest (c_string a) (c_string b) third rest))) in
    if c == 0 then ret no_hh else split

-- tolower in the C locale
abbrev pub lower : ℕ → ℕ
lower c = if leb 65 c && leb c 90 then c + 32 else c

-- strncasecmp(hdr, line, strlen(hdr)): what stands behind the name in the line, if it begins with it
pub behind_name : Bytes → Bytes → Option Bytes
behind_name [] line = some line
behind_name (c ∷ name) [] = none
behind_name (c ∷ name) (d ∷ line) =
    let more = behind_name name line in if lower c == lower d then more else none

-- The value in the line, if it is a field of the name
pub field_value : Bytes → Bytes → Option Bytes
field_value hdr line = elim (behind_name hdr line) [
  | none ↦ none
  | some rest ↦ if peek rest == 58 then some (skip vct_issp (drop 1 rest)) else none
]

-- `http_find_header`
pub http_find_header : List Bytes → Bytes → Option Bytes
http_find_header [] hdr = none
http_find_header (l ∷ ls) hdr =
    let more = http_find_header ls hdr in elim (field_value hdr l) [ none ↦ more | some v ↦ some v ]

-- `http_count_header`
pub http_count_header : List Bytes → Bytes → ℕ
http_count_header [] hdr = 0
http_count_header (l ∷ ls) hdr =
    let more = http_count_header ls hdr in
    elim (field_value hdr l) [ none ↦ more | some v ↦ suc more ]

-- The state of `http_rxhdr` behind a byte; none at the end of the header
pub hdr_state : ℕ → ℕ → Option ℕ
hdr_state s c =
    if (s == 0) && (c == 13)
    then some 1
    else if ((s == 0) || (s == 1)) && (c == 10)
    then some 2
    else if (s == 2) && (c == 13)
    then some 3
    else if ((s == 2) || (s == 3)) && (c == 10)
    then none
    else some 0

abbrev pub last_byte : Bytes → ℕ
last_byte [] = 0
last_byte (c ∷ []) = c
last_byte (c ∷ d ∷ cs) = last_byte (d ∷ cs)

-- What `http_rxhdr` does with the answer for a byte; `again` is the loop.
abbrev pub after_byte : (ℕ → Http → Outcome (Rx × Http)) → ℕ → Rx × Http → Outcome (Rx × Http)
after_byte again s (rx_all, hp) = elim (hdr_state s (last_byte hp.rx)) [
  | none ↦ ret (rx_all, hp)
  | some s' ↦ again s' hp
]
after_byte again s (rx_eof, hp) = ret (rx_eof, hp)
after_byte again s (rx_error, hp) = ret (rx_error, hp)
after_byte again s (rx_waits, hp) = ret (rx_waits, hp)

-- The loop of `http_rxhdr`. Each round receives a byte, for which there has to be room, so that as many
-- rounds as the buffer has bytes are enough.
pub rxhdr_loop : ℕ → ℕ → Http → Outcome (Rx × Http)
rxhdr_loop zero s hp = aborted
rxhdr_loop (suc rounds) s hp = http_rxchar 1 true hp >>= after_byte (rxhdr_loop rounds) s

-- `http_rxhdr`; none if it waits for ever. The text of `bodylen` is "<undef>" behind it.
pub http_rxhdr : Http → Outcome (Option Http)
http_rxhdr hp = do
  (i, hp') ← rxhdr_loop hp.nrxbuf 0 (record hp { rx = []; body = none })
  let done : Outcome (Option Http) = ret (some (record hp' { body = some (length hp'.rx) }))
  elim i [
    | rx_all ↦ done
    | rx_eof ↦ complain hp.fatal done
    | rx_error ↦ complain hp.fatal done
    | rx_waits ↦ ret none
  ]
