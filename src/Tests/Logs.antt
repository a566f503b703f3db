-- ===== src/Tests/Logs.antt =====
-- Expectations on a log at concrete records.
use vtest.Base.{
  ℕ, ◌≡◌, refl, List, [], ◌∷◌, codes, true, false, Option, none, some, ret, ◌-◌, if◌then◌else◌,
  Returns, arith,
}
use vtest.Base.Int.{pos}
use vtest.Macros.{same_text}
use vtest.Logexp.{any, alt, upto, fail, number, anything, last, Test, Rec, Vsl, Logexp, logexp_next}
use vtest.Logexp.Dispatch.{logexp_dispatch, logexp_start, logexp_thread, records, done}
use vtest.Logexp.Dispatch.Sound.{Dispatched, logexp_dispatch-IsSound}
use vtest.Logexp.Dispatch.Segments.{ended, segment, logexp_thread-Segments}
use vtest.Logexp.Dispatch.Expected.{all_expected}
use vtest.Logexp.Dispatch.Alternatives.{none_left, some_pair, logexp_dispatch-Reordered}
use vtest.Logexp.Dispatch.Blocks.{Behind}
use vtest.Logexp.Dispatch.Marks.{alternative, taken}
use vtest.Logexp.Commands.{Readers}
use vtest.Logexp.Commands.Specs.{expect_line, fail_line, Dispatches, logexp_spec-Dispatches}

-- A pattern matches the text that is equal to it, and the tags 90, 91 and 92 are End, Batch and Witness.
abbrev varnish : Vsl
varnish = record {
  vre_match = λ p text. same_text p text;
  vsl_match = λ r. true;
  slt_end = 90;
  slt_batch = 91;
  slt_witness = 92;
}

abbrev test : ℕ → Test
test tag = record { vxid = anything; tag = number tag; vre = none; skip_max = any }

abbrev rec : ℕ → Rec
rec tag = record { vxid = 1; tag = tag; text = [] }

-- Two records for a test of the tag 5, which may skip any; a record of the tag 7 must not come.
abbrev waiting : Logexp
waiting = record {
  before = [];
  ahead = test 5 ∷ [];
  failing = record (test 7) { skip_max = fail } ∷ [];
  skip_cnt = 0;
  vxid_last = none;
  tag_last = none;
}

logexp_dispatch-IsSound_example :
    Returns Dispatched (logexp_dispatch varnish (rec 4 ∷ rec 5 ∷ []) waiting)
unfolding vtest.Logexp.Dispatch.logexp_done
logexp_dispatch-IsSound_example =
    logexp_dispatch-IsSound varnish (rec 4 ∷ rec 5 ∷ []) waiting
      (record { fails = (refl, tt); first = tt; runs = ((λ e. cc), tt) }) refl (omega arith)

-- A record of the tag 4 is skipped for one of the tag 5, and another of the same tag comes at once.
abbrev two : List (Option ℕ × Test)
two = (some 1, test 5) ∷ (none, record (test 5) { tag = last }) ∷ []

logexp_thread-Segments_example :
    logexp_thread varnish false
      (records (rec 4 ∷ []) ∷ records (rec 5 ∷ rec 5 ∷ []) ∷ [])
      (all_expected two)
    ≡ ret done
unfolding vtest.Logexp.Dispatch.passes
logexp_thread-Segments_example =
    logexp_thread-Segments varnish false ((rec 4 ∷ []) ∷ (rec 5 ∷ rec 5 ∷ []) ∷ []) two (
      segment (some 1) (test 5) (rec 4 ∷ []) (rec 5) refl
        ((refl, omega arith, (λ h. let e : 5 ≡ 4 = h.1 in absurd (omega arith))), tt)
        (omega arith, omega arith) refl (tt, refl, tt)
        (segment none (record (test 5) { tag = last }) [] (rec 5) refl tt (omega arith) refl
          (tt, refl, tt) (ended [])))

-- Two alternatives, whose records come the other way round
logexp_dispatch-Reordered_example : Returns (Behind (taken (test 5) ∷ taken (test 6) ∷ []) []) (
    logexp_dispatch varnish (rec 6 ∷ rec 5 ∷ []) (record waiting {
      before = [];
      ahead = alternative (test 5) ∷ alternative (test 6) ∷ [];
      failing = [];
    }))
unfolding vtest.Logexp.Dispatch.passes vtest.Logexp.vre_ok
logexp_dispatch-Reordered_example =
    logexp_dispatch-Reordered varnish (test 5) (rec 5) ((test 6, rec 6) ∷ []) (rec 6 ∷ rec 5 ∷ [])
      [] [] waiting ((tt, tt), ((tt, tt), tt)) (refl, ((refl, refl), tt), (refl, tt, tt))
      (some_pair ((test 5, rec 5) ∷ []) [] (test 6) (rec 6) refl
        (some_pair [] [] (test 5) (rec 5) refl none_left))
      (refl, (refl, tt)) tt

-- A number is read from its one digit, and the one tag is called T.
abbrev readers : Readers
readers = record {
  strtol = λ w. elim w [ [] ↦ (pos 0, []) | c ∷ cs ↦ (pos (c - 48), cs) ];
  strtoll = λ w. elim w [ [] ↦ (pos 0, []) | c ∷ cs ↦ (pos (c - 48), cs) ];
  name2tag = λ w. if same_text w (codes "T") then some 5 else none;
  vre_compiles = λ p. true;
}

logexp_spec-Dispatches_example : Returns (Dispatches varnish (rec 5 ∷ [])) (
    logexp_next (
      logexp_start
        (record (test 5) { skip_max = fail } ∷ record (test 5) { skip_max = upto 2 } ∷ [])))
unfolding vtest.Macros.same_text vtest.Logexp.Commands.Specs.logexp_spec
    vtest.Logexp.Commands.cmd_logexp_fail vtest.Logexp.Commands.cmd_logexp_expect
    vtest.Logexp.Commands.read_skip vtest.Logexp.Commands.cmd_logexp_common
    vtest.Logexp.Commands.read_vxid vtest.Logexp.Commands.read_tag vtest.Logexp.Commands.read_vre
    vtest.Logexp.Commands.positive vtest.Logexp.Commands.int_of
logexp_spec-Dispatches_example =
    logexp_spec-Dispatches readers
      (fail_line (codes "add" ∷ codes "*" ∷ codes "T" ∷ [])
        ∷ expect_line (codes "2" ∷ codes "*" ∷ codes "T" ∷ [])
        ∷ [])
      varnish (rec 5 ∷ [])
      (record (test 5) { skip_max = fail } ∷ record (test 5) { skip_max = upto 2 } ∷ [])
      (tt, (tt, tt)) refl (omega arith)
