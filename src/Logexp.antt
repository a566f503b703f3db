-- ===== src/Logexp.antt =====
-- The expectations on a log of src/vtc_logexp.c: the tests, the walk over them, and the match of a record.
-- The log and its tags, and regular expressions, are Varnish's: they are arguments, in `Vsl`.
pub mod Dispatch
pub mod Commands
use vtest.Base.{
  ℕ, suc, ◌+◌, List, [], ◌∷◌, ◌++◌, map, Bytes, Bool, true, false, not, ◌&&◌, ◌==◌, ltb,
  if◌then◌else◌, Option, none, some, Outcome, ret, aborted, ◌>>=◌,
}

-- `skip_max`: a number, or one of LE_ANY, LE_ALT, LE_SEEN, LE_FAIL, LE_CLEAR and LE_ABORT
pub data Skip : Type 0 where
  upto : ℕ → Skip
  any alt seen fail clear abort : Skip

-- What a test wants of `vxid` or `tag`: a number, LE_ANY or LE_LAST
pub data Want : Type 0 where
  number : ℕ → Want
  anything last : Want

-- struct logexp_test, with the pattern of its regular expression
pub record Test : Type 0 where
  pub vxid : Want
  pub tag : Want
  pub vre : Option Bytes
  pub skip_max : Skip

-- A record of the log
pub record Rec : Type 0 where
  pub vxid : ℕ
  pub tag : ℕ
  pub text : Bytes

-- What the library of Varnish gives: VRE_match, whether a record passes VSL_Match, and three tags
pub record Vsl : Type 0 where
  pub vre_match : Bytes → Bytes → Bool
  pub vsl_match : Rec → Bool
  pub slt_end : ℕ
  pub slt_batch : ℕ
  pub slt_witness : ℕ

-- struct logexp, as far as it is about the tests: those before `le->test`, and those from it on. NULL
-- is the place behind the last. The last vxid and tag are none for -1. A test on the list `fail` is
-- not changed any more, so that the list holds copies.
pub record Logexp : Type 0 where
  pub before : List Test
  pub ahead : List Test
  pub failing : List Test
  pub skip_cnt : ℕ
  pub vxid_last : Option ℕ
  pub tag_last : Option ℕ

pub is_alt : Skip → Bool
is_alt alt = true
is_alt _ = false

-- `logexp_clean`, for a test
unfoldable pub clean_test : Test → Test
clean_test t = elim t.skip_max [ seen ↦ record t { skip_max = alt } | _ ↦ t ]

unfoldable pub logexp_clean : List Test → List Test
logexp_clean ts = map clean_test ts

-- The end of `logexp_next` with `le->test` at the first of some tests. Where it calls itself, the test
-- is no alternative, so that it goes on behind it.
pub land : List Test → List Test → List Test → Logexp → Outcome Logexp
land before [] failing le = ret (record le { before = before; ahead = []; failing = failing })
land before (t ∷ ts) failing le = elim t.skip_max [
  | seen ↦ land (before ++ t ∷ []) ts failing le
  | clear ↦ land (before ++ t ∷ []) ts [] le
  | fail ↦ land (before ++ t ∷ []) ts (failing ++ t ∷ []) le
  | abort ↦ aborted
  | _ ↦ ret (record le { before = before; ahead = t ∷ ts; failing = failing })
]

-- `logexp_next`, by the tests from `le->test` on
pub next_from : List Test → Logexp → Outcome Logexp
next_from [] le = land [] (logexp_clean le.before) [] le
next_from (t ∷ ts) le =
    if is_alt t.skip_max
    then land le.before (t ∷ ts) le.failing le
    else land (le.before ++ t ∷ []) ts le.failing le

unfoldable pub logexp_next : Logexp → Outcome Logexp
unfolding next_from
logexp_next le = next_from le.ahead le

-- enum le_match_e
pub data Lem : Type 0 where
  lem_ok lem_skip lem_fail : Lem

pub same_last : Option ℕ → ℕ → Bool
same_last none n = false
same_last (some m) n = m == n

-- A number that a test wants
pub wanted : Want → Option ℕ → ℕ → Bool
wanted anything before n = true
wanted last before n = same_last before n
wanted (number m) before n = m == n

-- The regular expression is looked at where the tag is given and is that of the record.
unfoldable pub vre_ok : Vsl → Test → Rec → Bool
vre_ok v t r = elim t.vre [
  | none ↦ true
  | some p ↦ elim t.tag [ number m ↦ if m == r.tag then v.vre_match p r.text else true | _ ↦ true ]
]

-- `ok` of `logexp_match`
unfoldable pub matched : Vsl → Logexp → Test → Rec → Bool
unfolding wanted vre_ok same_last
matched v le t r =
    wanted t.vxid le.vxid_last r.vxid && wanted t.tag le.tag_last r.tag && vre_ok v t r

-- `vxid_ok`
pub vxid_ok : Logexp → Test → Rec → Bool
vxid_ok le t r = elim t.vxid [
  | anything ↦ false
  | last ↦ same_last le.vxid_last r.vxid
  | number m ↦ m == r.vxid
]

-- Whether `skip_max` lets one more record pass
pub skips : Skip → ℕ → Bool
skips any cnt = true
skips (upto n) cnt = ltb cnt n
skips _ cnt = false

-- What `logexp_match` answers for a test that is no alternative. The end of the transaction is not
-- skipped where the test names it.
unfoldable pub verdict : Vsl → Logexp → Test → Rec → Lem
unfolding vxid_ok same_last skips
verdict v le t r =
    if matched v le t r
    then lem_ok
    else if skips t.skip_max le.skip_cnt && not (vxid_ok le t r && (r.tag == v.slt_end))
    then lem_skip
    else lem_fail

pub behind : Test → Lem × List Test → Lem × List Test
behind t (answer, ts) = (answer, t ∷ ts)

-- `logexp_match` for alternatives, with `logexp_alt`, which finds the next: the answer, and the tests
-- with the one that matched marked as seen
pub match_alt : Vsl → Logexp → List Test → Rec → Lem × List Test
match_alt v le [] r = (lem_fail, [])
match_alt v le (t ∷ ts) r =
    let rest = behind t (match_alt v le ts r) in
    elim t.skip_max [
      | seen ↦ rest
      | alt ↦ if matched v le t r then (lem_ok, record t { skip_max = seen } ∷ ts) else rest
      | _ ↦ (lem_fail, t ∷ ts)
    ]

-- `logexp_match` of the first of some tests
unfoldable pub logexp_match : Vsl → Logexp → List Test → Rec → Outcome (Lem × List Test)
logexp_match v le [] r = aborted
logexp_match v le (t ∷ ts) r = elim t.skip_max [
  | seen ↦ aborted
  | clear ↦ aborted
  | alt ↦ ret (match_alt v le (t ∷ ts) r)
  | _ ↦ ret (verdict v le t r, t ∷ ts)
]
