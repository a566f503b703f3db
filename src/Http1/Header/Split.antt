-- ===== src/Http1/Header/Split.antt =====
-- The header of a message as it is sent, and what `http_splitheader` of src/vtc_http.c makes of it.
pub mod Ends
use vtest.Base.{
  ℕ, zero, suc, ◌+◌, ◌-◌, ◌≤◌, ◌<◌, ◌≡◌, ◌≢◌, refl, sym, ap, ◌∙◌, List, [], ◌∷◌, ◌++◌, append_assoc,
  append-nil, Bytes, length, Bool, true, false, not, ◌&&◌, ◌||◌, ◌==◌, ltb, leb, if◌then◌else◌,
  Option, none, some, Outcome, ret, ◌>>=◌, arith, All, c_string,
}
use vtest.Http1.Connection.{Hh}
use vtest.Http1.Header.{
  vct_issp, vct_islws, peek, vct_iscrlf, vct_skipcrlf, skip, to_lws, to_crlf, to_end, split_fields,
  split_third, split_rest, must, http_splitheader,
}

-- Three strings and the fields
pub record Message : Type 0 where
  pub first : Bytes
  pub second : Bytes
  pub third : Bytes
  pub fields : List Bytes

-- The lines of the fields, and the empty line behind them
abbrev pub lines : List Bytes → Bytes
lines [] = 13 ∷ 10 ∷ []
lines (f ∷ fs) = f ++ 13 ∷ 10 ∷ lines fs

abbrev pub wire : Message → Bytes
wire m = m.first ++ 32 ∷ (m.second ++ 32 ∷ (m.third ++ 13 ∷ 10 ∷ lines m.fields))

-- No terminator, and no part of the end of a line
abbrev pub IsText : ℕ → Type 0
IsText c = (c ≢ 0) × (c ≢ 13) × (c ≢ 10)

abbrev pub IsWordByte : ℕ → Type 0
IsWordByte c = IsText c × (vct_issp c ≡ false)

abbrev pub IsEmpty : Bytes → Type 0
IsEmpty [] = Unit
IsEmpty (c ∷ cs) = ⊥

abbrev pub IsWord : Bytes → Type 0
IsWord w = (IsEmpty w → ⊥) × All IsWordByte w

-- A field has a byte at least.
abbrev pub IsField : Bytes → Type 0
IsField f = (IsEmpty f → ⊥) × All IsText f

-- It does not begin with white space.
abbrev StartsDark : Bytes → Type 0
StartsDark [] = Unit
StartsDark (c ∷ cs) = vct_issp c ≡ false

-- The first two strings are words, the third is a text in one line that does not begin with white space,
-- and so are the fields; there are at most 60 of these.
pub record IsMessage (m : Message) : Type 0 where
  pub first_word : IsWord m.first
  pub second_word : IsWord m.second
  pub third_dark : StartsDark m.third
  pub third_text : All IsText m.third
  pub field_texts : All IsField m.fields
  pub few : length m.fields < 61

vct_iscrlf-text : (c : ℕ) (cs : Bytes) → IsText c → vct_iscrlf (c ∷ cs) ≡ 0
unfolding vct_iscrlf
vct_iscrlf-text c cs (a, b, d) =
    let no_cr : (c == 13) ≡ false = ground (arith, b) in
    let no_lf : (c == 10) ≡ false = ground (arith, d) in rw (no_cr, no_lf) refl

vct_islws-word : (c : ℕ) → IsWordByte c → vct_islws c ≡ false
vct_islws-word c ((a, b, d), e) =
    let no_cr : (c == 13) ≡ false = ground (arith, b) in
    let no_lf : (c == 10) ≡ false = ground (arith, d) in rw (e, no_cr, no_lf) refl

to_lws-append :
    (w : Bytes) (rest : Bytes) → All IsWordByte w → to_lws (w ++ 32 ∷ rest) ≡ ret (w, 32 ∷ rest)
unfolding to_lws
to_lws-append [] rest h = refl
to_lws-append (c ∷ w) rest (h, hs) = rw (vct_islws-word c h, to_lws-append w rest hs) refl

to_crlf-append :
    (t rest : Bytes) → All IsText t → to_crlf (t ++ 13 ∷ 10 ∷ rest) ≡ ret (t, 13 ∷ 10 ∷ rest)
unfolding to_crlf vct_iscrlf
to_crlf-append [] rest h = refl
to_crlf-append (c ∷ t) rest (h, hs) =
    rw (vct_iscrlf-text c (t ++ 13 ∷ 10 ∷ rest) h, to_crlf-append t rest hs) refl

to_end-append : (t rest : Bytes) → All IsText t → to_end (t ++ 13 ∷ 10 ∷ rest) ≡ (t, 13 ∷ 10 ∷ rest)
unfolding to_end vct_iscrlf
to_end-append [] rest h = refl
to_end-append (c ∷ t) rest (h, hs) =
    let no_end : (c == 0) ≡ false = ground (arith, h.0) in
    rw (vct_iscrlf-text c (t ++ 13 ∷ 10 ∷ rest) h, no_end, to_end-append t rest hs) refl

c_string-text : (t : Bytes) → All IsText t → c_string t ≡ t
unfolding c_string
c_string-text [] h = refl
c_string-text (c ∷ t) (h, hs) =
    let no_end : (c == 0) ≡ false = ground (arith, h.0) in rw (no_end, c_string-text t hs) refl

words_texts : (w : Bytes) → All IsWordByte w → All IsText w
words_texts [] h = h
words_texts (c ∷ w) (h, hs) = (h.0, words_texts w hs)

split_fields-lines :
    (free : ℕ) (fs : List Bytes)
    → All IsField fs
    → length fs < free
    → split_fields free (lines fs) ≡ ret (fs, 13 ∷ 10 ∷ [])
unfolding split_fields vct_iscrlf
split_fields-lines zero fs h few = absurd (omega (arith, few))
split_fields-lines (suc free) [] h few = refl
split_fields-lines (suc free) ([] ∷ fs) ((some_byte, h), hs) few = absurd (some_byte (record {}))
split_fields-lines (suc free) ((c ∷ f) ∷ fs) ((some_byte, (h, hf)), hs) few =
    let no_end : (c == 0) ≡ false = ground (arith, h.0) in
    rw
      (
        vct_iscrlf-text c (f ++ 13 ∷ 10 ∷ lines fs) h,
        no_end,
        to_end-append f (lines fs) hf,
        split_fields-lines free fs hs (omega (arith, few)),
      )
      refl

skip-word : (test : ℕ → Bool) (c : ℕ) (cs : Bytes) → test c ≡ false → skip test (c ∷ cs) ≡ c ∷ cs
unfolding skip
skip-word test c cs h = rw h refl

skip-dark :
    (t rest : Bytes) → StartsDark t → skip vct_issp (t ++ 13 ∷ 10 ∷ rest) ≡ t ++ 13 ∷ 10 ∷ rest
unfolding skip
skip-dark [] rest h = refl
skip-dark (c ∷ t) rest h = skip-word vct_issp c (t ++ 13 ∷ 10 ∷ rest) h

split_third-append :
    (t rest : Bytes)
    → StartsDark t
    → All IsText t
    → split_third (32 ∷ (t ++ 13 ∷ 10 ∷ rest)) ≡ ret (some t, rest)
unfolding vct_iscrlf split_third
split_third-append t rest dark h =
    rw (skip-dark t rest dark, to_crlf-append t rest h, c_string-text t h) refl

split_rest-lines :
    (a b : Bytes) (c : Option Bytes) (fs : List Bytes)
    → All IsField fs
    → length fs < 61
    → split_rest a b c (lines fs)
      ≡ ret (record { first = some a; second = some b; third = c; fields = fs })
unfolding vct_iscrlf split_rest
split_rest-lines a b c fs h few =
    let not_full : (length fs == 61) ≡ false = ground (arith, few) in
    rw (split_fields-lines 61 fs h few, not_full) refl

split_words :
    (a b t : Bytes) (fs : List Bytes)
    → IsWord a
    → IsWord b
    → StartsDark t
    → All IsText t
    → All IsField fs
    → length fs < 61
    → http_splitheader (a ++ 32 ∷ (b ++ 32 ∷ (t ++ 13 ∷ 10 ∷ lines fs)))
      ≡ ret (record { first = some a; second = some b; third = some t; fields = fs })
unfolding http_splitheader vct_iscrlf
split_words [] b t fs (some_byte, h) hb dark ht hf few = absurd (some_byte (record {}))
split_words (c ∷ a) [] t fs ha (some_byte, h) dark ht hf few = absurd (some_byte (record {}))
split_words (c ∷ a) (d ∷ b) t fs (_, (hc, ha)) (_, (hd, hb)) dark ht hf few =
    let message = t ++ 13 ∷ 10 ∷ lines fs in
    let no_end : (c == 0) ≡ false = ground (arith, hc.0.0) in
    rw
      (
        no_end,
        skip-word vct_islws c (a ++ 32 ∷ ((d ∷ b) ++ 32 ∷ message)) (vct_islws-word c hc),
        to_lws-append (c ∷ a) ((d ∷ b) ++ 32 ∷ message) (hc, ha),
        skip-word vct_issp d (b ++ 32 ∷ message) hd.1,
        vct_iscrlf-text d (b ++ 32 ∷ message) hd.0,
        to_lws-append (d ∷ b) message (hd, hb),
        split_third-append t (lines fs) dark ht,
        c_string-text (c ∷ a) (words_texts (c ∷ a) (hc, ha)),
        c_string-text (d ∷ b) (words_texts (d ∷ b) (hd, hb)),
      )
      (split_rest-lines (c ∷ a) (d ∷ b) (some t) fs hf few)

-- The strings and the fields of a message
abbrev pub hh_of : Message → Hh
hh_of m = record {
  first = some m.first;
  second = some m.second;
  third = some m.third;
  fields = m.fields;
}

pub http_splitheader-wire : (m : Message) → IsMessage m → http_splitheader (wire m) ≡ ret (hh_of m)
http_splitheader-wire m h =
    split_words m.first m.second m.third m.fields h.first_word h.second_word h.third_dark
      h.third_text h.field_texts h.few
