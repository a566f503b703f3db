-- ===== src/Logexp/Dispatch/Expected.antt =====
-- A test of an expectation on a log that may skip some records (src/vtc_logexp.c): what one record does.
use vtest.Base.{
  ℕ, ◌+◌, ◌-◌, ◌^◌, ◌≤◌, ◌<◌, ◌≡◌, ◌≢◌, refl, inl, inr, List, [], ◌∷◌, ◌++◌, Bool, true, false,
  ◌&&◌, ◌==◌, if◌then◌else◌, Option, none, some, ret, Bytes, arith, Bool-cases,
}
use vtest.Logexp.{
  Skip, upto, any, Want, number, anything, last, Test, Rec, Vsl, Logexp, lem_ok, lem_skip, land,
  logexp_next, is_alt, same_last, wanted, vre_ok, matched, skips, verdict, logexp_match,
}
use vtest.Logexp.Dispatch.{
  failchk_of, logexp_failchk, logexp_done, passes, goes_on, ends, after_match, match_current,
  dispatch_one,
}

-- What a test wants of a number, where the record that was matched last had another
abbrev pub Wanted : Want → Option ℕ → ℕ → Type 0
Wanted anything before n = Unit {0}
Wanted (number m) before n = m ≡ n
Wanted last none n = ⊥
Wanted last (some m) n = m ≡ n

-- The regular expression counts where the test names the tag of the record.
abbrev pub TextFits : Vsl → Option Bytes → Want → Rec → Type 0
TextFits v (some p) (number m) r = m ≡ r.tag → v.vre_match p r.text ≡ true
TextFits v _ _ r = Unit {0}

abbrev pub Accepts : Vsl → Option ℕ → Option ℕ → Test → Rec → Type 0
Accepts v vxid tag t r =
    Wanted t.vxid vxid r.vxid × Wanted t.tag tag r.tag × TextFits v t.vre t.tag r

-- A test with how many records it may skip, where none is no bound
abbrev pub expected : Option ℕ × Test → Test
expected (none, t) = record t { skip_max = any }
expected (some n, t) = record t { skip_max = upto n }

abbrev pub all_expected : List (Option ℕ × Test) → List Test
all_expected [] = []
all_expected (e ∷ es) = expected e ∷ all_expected es

-- So many records were skipped.
abbrev pub MaySkip : Option ℕ → ℕ → Type 0
MaySkip none k = k < 2 ^ 31
MaySkip (some n) k = (k ≤ n) × (k < 2 ^ 31)

wanted_iff :
    (w : Want) (o : Option ℕ) (n : ℕ)
    → (wanted w o n ≡ true → Wanted w o n) × (Wanted w o n → wanted w o n ≡ true)
unfolding wanted same_last
wanted_iff anything o n = ((λ h. tt), (λ h. refl))
wanted_iff (number m) o n = ground arith
wanted_iff last none n = ((λ h. cc), (λ h. absurd h))
wanted_iff last (some m) n = ground arith

text_iff :
    (v : Vsl) (vre : Option Bytes) (w : Want) (t : Test) (r : Rec)
    → t.vre ≡ vre
    → t.tag ≡ w
    → (vre_ok v t r ≡ true → TextFits v vre w r) × (TextFits v vre w r → vre_ok v t r ≡ true)
unfolding vre_ok
text_iff v none w t r e k = ground arith
text_iff v (some p) (number m) t r e k = ground arith
text_iff v (some p) anything t r e k = ground arith
text_iff v (some p) last t r e k = ground arith

three_true : (a b c : Bool) → (a && b && c) ≡ true → (a ≡ true) × (b ≡ true) × (c ≡ true)
three_true a b c h = ground arith

module _ (v : Vsl) (le : Logexp) (t : Test) (s : Skip) (r : Rec) where
  matched_of :
      Accepts v le.vxid_last le.tag_last t r → matched v le (record t { skip_max = s }) r ≡ true
  unfolding matched
  matched_of (h, k, l) =
      rw ((wanted_iff t.vxid le.vxid_last r.vxid).1 h, (wanted_iff t.tag le.tag_last r.tag).1 k)
        ((text_iff v t.vre t.tag (record t { skip_max = s }) r refl refl).1 l)

  not_matched :
      ¬ (Accepts v le.vxid_last le.tag_last t r)
      → matched v le (record t { skip_max = s }) r ≡ false
  unfolding matched
  not_matched h = elim (Bool-cases (matched v le (record t { skip_max = s }) r)) [
    | inr miss ↦ miss
    | inl hit ↦
        let (one, two, three) = three_true (wanted t.vxid le.vxid_last r.vxid) _ _ hit in
        absurd (
          h (
            (wanted_iff t.vxid le.vxid_last r.vxid).0 one,
            (wanted_iff t.tag le.tag_last r.tag).0 two,
            (text_iff v t.vre t.tag (record t { skip_max = s }) r refl refl).0 three,
          ))
  ]

-- The walk at a test of the list, with no test that must not match
abbrev pub stand : List Test → List (Option ℕ × Test) → ℕ → Option ℕ → Option ℕ → Logexp
stand before es k vxid tag = record {
  before = before;
  ahead = all_expected es;
  failing = [];
  skip_cnt = k;
  vxid_last = vxid;
  tag_last = tag;
}

-- One more record may be skipped.
abbrev pub MoreTo : Option ℕ → ℕ → Type 0
MoreTo none k = k + 1 < 2 ^ 31
MoreTo (some n) k = (k < n) × (k + 1 < 2 ^ 31)

MoreTo-below : (limit : Option ℕ) (k : ℕ) → MoreTo limit k → (k == 2 ^ 31 - 1) ≡ false
MoreTo-below none k m = ground arith
MoreTo-below (some n) k m = ground arith

verdict-skip :
    (v : Vsl) (before : List Test) (limit : Option ℕ) (t : Test) (es : List (Option ℕ × Test))
    (k : ℕ) (vxid tag : Option ℕ) (q : Rec)
    → MoreTo limit k
    → q.tag ≢ v.slt_end
    → ¬ (Accepts v vxid tag t q)
    → logexp_match v (stand before ((limit, t) ∷ es) k vxid tag) (all_expected ((limit, t) ∷ es)) q
      ≡ ret (lem_skip, all_expected ((limit, t) ∷ es))
unfolding logexp_match verdict skips
verdict-skip v before none t es k vxid tag q m e h =
    rw (not_matched v (stand before ((none, t) ∷ es) k vxid tag) t any q h) (ground arith)
verdict-skip v before (some n) t es k vxid tag q m e h =
    rw (not_matched v (stand before ((some n, t) ∷ es) k vxid tag) t (upto n) q h) (ground arith)

pub dispatch_one-miss :
    (v : Vsl) (before : List Test) (limit : Option ℕ) (t : Test) (es : List (Option ℕ × Test))
    (k : ℕ) (vxid tag : Option ℕ) (q : Rec)
    → passes v q ≡ true
    → MoreTo limit k
    → q.tag ≢ v.slt_end
    → ¬ (Accepts v vxid tag t q)
    → dispatch_one v q (stand before ((limit, t) ∷ es) k vxid tag)
      ≡ ret (goes_on (stand before ((limit, t) ∷ es) (k + 1) vxid tag))
unfolding dispatch_one logexp_failchk failchk_of match_current after_match
dispatch_one-miss v before limit t es k vxid tag q p m e h =
    let below : (k == 2 ^ 31 - 1) ≡ false = MoreTo-below limit k m in
    rw (p, verdict-skip v before limit t es k vxid tag q m e h, below)

verdict-hit :
    (v : Vsl) (before : List Test) (limit : Option ℕ) (t : Test) (es : List (Option ℕ × Test))
    (k : ℕ) (vxid tag : Option ℕ) (r : Rec)
    → Accepts v vxid tag t r
    → logexp_match v (stand before ((limit, t) ∷ es) k vxid tag) (all_expected ((limit, t) ∷ es)) r
      ≡ ret (lem_ok, all_expected ((limit, t) ∷ es))
unfolding logexp_match verdict
verdict-hit v before none t es k vxid tag r h =
    rw (matched_of v (stand before ((none, t) ∷ es) k vxid tag) t any r h)
verdict-hit v before (some n) t es k vxid tag r h =
    rw (matched_of v (stand before ((some n, t) ∷ es) k vxid tag) t (upto n) r h)

pub land-expected :
    (before : List Test) (es : List (Option ℕ × Test)) (le : Logexp)
    → land before (all_expected es) [] le
      ≡ ret (record le { before = before; ahead = all_expected es; failing = [] })
unfolding land
land-expected before [] le = refl
land-expected before ((none, t) ∷ es) le = refl
land-expected before ((some n, t) ∷ es) le = refl

next-expected :
    (before : List Test) (e : Option ℕ × Test) (es : List (Option ℕ × Test)) (vxid tag : Option ℕ)
    → logexp_next (stand before (e ∷ es) 0 vxid tag)
      ≡ ret (stand (before ++ expected e ∷ []) es 0 vxid tag)
unfolding logexp_next is_alt
next-expected before (none, t) es vxid tag = land-expected _ es _
next-expected before (some n, t) es vxid tag = land-expected _ es _

pub dispatch_one-hit :
    (v : Vsl) (before : List Test) (limit : Option ℕ) (t : Test) (es : List (Option ℕ × Test))
    (k : ℕ) (vxid tag : Option ℕ) (r : Rec)
    → passes v r ≡ true
    → Accepts v vxid tag t r
    → dispatch_one v r (stand before ((limit, t) ∷ es) k vxid tag) ≡ (
        let le' = stand (before ++ expected (limit, t) ∷ []) es 0 (some r.vxid) (some r.tag) in
        ret (if logexp_done le' then ends 1 le' else goes_on le'))
unfolding dispatch_one logexp_failchk failchk_of match_current after_match
dispatch_one-hit v before limit t es k vxid tag r p h = rw (
  p,
  verdict-hit v before limit t es k vxid tag r h,
  next-expected before (limit, t) es (some r.vxid) (some r.tag),
)
