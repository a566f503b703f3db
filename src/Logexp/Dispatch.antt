-- ===== src/Logexp/Dispatch.antt =====
-- How a log is matched (src/vtc_logexp.c): `logexp_failchk`, `logexp_dispatch` over the records that it is
-- given, and the loop of `logexp_thread`. What the library of Varnish finds in the log is an argument.
pub mod Sound
pub mod Walk
pub mod Segments
pub mod Expected
pub mod Alternatives
pub mod Blocks
pub mod Marks
use vtest.Base.{
  ℕ, ◌+◌, ◌-◌, ◌^◌, List, [], ◌∷◌, Bool, true, false, not, ◌||◌, ◌==◌, if◌then◌else◌, none, some,
  Outcome, ret, aborted, undefined, ◌>>=◌,
}
use vtest.Logexp.{
  Test, Rec, Vsl, Logexp, Lem, lem_ok, lem_skip, lem_fail, logexp_next, logexp_match,
}

-- The walk of `logexp_failchk` over the tests that must not match
pub failchk_loop : Vsl → Logexp → List Test → Rec → Outcome Lem
failchk_loop v le [] r = ret lem_ok
failchk_loop v le (t ∷ ts) r =
    let more = failchk_loop v le ts r in
    logexp_match v le (t ∷ []) r >>= λ m. elim m.0 [
      | lem_ok ↦ ret lem_fail
      | lem_fail ↦ more
      | lem_skip ↦ aborted
    ]

-- `logexp_failchk`, by the list `fail`
pub failchk_of : Vsl → Logexp → List Test → Rec → Outcome Lem
failchk_of v le [] r = ret lem_skip
failchk_of v le (t ∷ ts) r = failchk_loop v le (t ∷ ts) r

unfoldable pub logexp_failchk : Vsl → Logexp → Rec → Outcome Lem
unfolding failchk_of
logexp_failchk v le r = failchk_of v le le.failing r

abbrev pub is_empty : List Test → Bool
is_empty [] = true
is_empty (t ∷ ts) = false

abbrev pub none_left : List Test → List Test → Bool
none_left [] ahead = is_empty ahead
none_left (t ∷ ts) ahead = false

unfoldable pub logexp_done : Logexp → Bool
logexp_done le = none_left le.failing le.ahead

-- VSL_Match and the two tags that are passed over
unfoldable pub passes : Vsl → Rec → Bool
passes v r = if v.vsl_match r then not (r.tag == v.slt_batch || (r.tag == v.slt_witness)) else false

-- What `logexp_dispatch` does with a record: it goes on, or ends with LEM_FAIL, which is 2, or with 1.
pub data Seen : Type 0 where
  goes_on : Logexp → Seen
  ends : ℕ → Logexp → Seen

pub after_match : Rec → Logexp → Lem × List Test → Outcome Seen
after_match r le (lem_fail, ts) = ret (ends 2 (record le { ahead = ts }))
after_match r le (lem_skip, ts) =
    if le.skip_cnt == 2 ^ 31 - 1
    then undefined
    else ret (goes_on (record le { ahead = ts; skip_cnt = le.skip_cnt + 1 }))
after_match r le (lem_ok, ts) = do
  le' ←
      logexp_next
        (record le { ahead = ts; skip_cnt = 0; vxid_last = some r.vxid; tag_last = some r.tag })
  ret (if logexp_done le' then ends 1 le' else goes_on le')

-- The match with the first of the tests from `le->test` on, after `logexp_failchk`
pub match_current : Vsl → Rec → Logexp → List Test → Lem → Outcome Seen
match_current v r le ts lem_fail = ret (ends 2 le)
match_current v r le [] lem_ok = ret (goes_on le)
match_current v r le [] lem_skip = aborted
match_current v r le (t ∷ ts) _ = logexp_match v le (t ∷ ts) r >>= after_match r le

unfoldable pub dispatch_one : Vsl → Rec → Logexp → Outcome Seen
unfolding match_current after_match
dispatch_one v r le =
    if passes v r then logexp_failchk v le r >>= match_current v r le le.ahead else ret (goes_on le)

-- `logexp_dispatch` over the records of its transactions: what it returns, and the state
pub logexp_dispatch : Vsl → List Rec → Logexp → Outcome (ℕ × Logexp)
logexp_dispatch v [] le = ret (0, le)
logexp_dispatch v (r ∷ rs) le = dispatch_one v r le >>= λ s. elim s [
  | ends n le' ↦ ret (n, le')
  | goes_on le' ↦ logexp_dispatch v rs le'
]

-- What a round of `logexp_thread` meets: `vtc_stop` or `vtc_error` is set; VSLQ_Dispatch fails; or it
-- gives records to `logexp_dispatch` until that does not answer 0.
pub data Round : Type 0 where
  stopped broken : Round
  records : List Rec → Round

-- How the thread ends: it logs `done`, it failed as expected, or it still waits for the log.
pub data Ended : Type 0 where
  done failed_as_expected : Ended
  waits : Logexp → Ended

-- After VSLQ_Dispatch
pub after_dispatch : Bool → ℕ × Logexp → (Logexp → Outcome Ended) → Outcome Ended
after_dispatch err_arg (i, le) again =
    if i == 2 then if err_arg then ret failed_as_expected else aborted else again le

-- The loop of `logexp_thread`, and its end
pub thread_loop : Vsl → Bool → List Round → Logexp → Outcome Ended
thread_loop v err_arg [] le = ret (if logexp_done le then done else waits le)
thread_loop v err_arg (round ∷ rounds) le =
    let again = λ (le' : Logexp). thread_loop v err_arg rounds le' in
    let go_on : Outcome Ended = elim round [
      | stopped ↦ aborted
      | broken ↦ aborted
      | records rs ↦ logexp_dispatch v rs le >>= λ d. after_dispatch err_arg d again
    ] in
    if logexp_done le then ret done else go_on

-- The state that `logexp_start` leaves to the thread, with all the tests before `le->test`, which is NULL
abbrev pub logexp_start : List Test → Logexp
logexp_start tests = record {
  before = tests;
  ahead = [];
  failing = [];
  skip_cnt = 0;
  vxid_last = none;
  tag_last = none;
}

-- `logexp_thread` over the tests of a start
unfoldable pub logexp_thread : Vsl → Bool → List Round → List Test → Outcome Ended
unfolding thread_loop
logexp_thread v err_arg rounds tests =
    logexp_next (logexp_start tests) >>= thread_loop v err_arg rounds
