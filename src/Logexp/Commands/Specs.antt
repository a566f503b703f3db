-- ===== src/Logexp/Commands/Specs.antt =====
-- A specification of an expectation on a log: commands, and the start over their tests (src/vtc_logexp.c).
use vtest.Base.{
  ◌≡◌, List, [], ◌∷◌, Bytes, codes, Outcome, ret, ◌<◌, ◌^◌, length, ◌⊎◌, ◌>>=◌, >>=-Ensures,
  Returns-map, Ensures, Returns, All, arith, true, false, ◌≢◌, Bool-cases, inl, inr,
}
use vtest.Base.Every.{All-snoc}
use vtest.Macros.{same_text}
use vtest.Logexp.{Skip, fail, abort, Test, Rec, Vsl, Logexp, logexp_next}
use vtest.Logexp.Dispatch.{logexp_start, logexp_done, logexp_dispatch}
use vtest.Logexp.Dispatch.Sound.{Dispatched, logexp_dispatch-IsSound}
use vtest.Logexp.Dispatch.Walk.{NoAbort, Landed, start-IsSound}
use vtest.Logexp.Commands.{
  Readers, fourth, positive, read_vxid, read_tag, read_vre, cmd_logexp_common, read_skip,
  cmd_logexp_expect, clear_test, cmd_logexp_fail_add, cmd_logexp_fail, cmd_logexp_abort,
}

-- A line of the specification, by the words behind the command
pub data Line : Type 0 where
  expect_line fail_line abort_line : List Bytes → Line

pub run_line : Readers → Line → List Test → Outcome (List Test)
run_line rd (expect_line ws) tests = cmd_logexp_expect rd ws tests
run_line rd (fail_line ws) tests = cmd_logexp_fail rd ws tests
run_line rd (abort_line ws) tests = cmd_logexp_abort rd ws tests

-- `logexp_spec`: the tests of the lines, after those from before are gone
pub spec_loop : Readers → List Line → List Test → Outcome (List Test)
spec_loop rd [] tests = ret tests
spec_loop rd (l ∷ ls) tests = run_line rd l tests >>= spec_loop rd ls

unfoldable pub logexp_spec : Readers → List Line → Outcome (List Test)
unfolding spec_loop run_line
logexp_spec rd ls = spec_loop rd ls []

common-NoAbort :
    (rd : Readers) (s : Skip) (ws : List Bytes) (tests : List Test)
    → s ≢ abort
    → All NoAbort tests
    → Ensures (All NoAbort) (cmd_logexp_common rd s ws tests)
unfolding cmd_logexp_common
common-NoAbort rd s [] tests h k = tt
common-NoAbort rd s (v ∷ []) tests h k = >>=-Ensures (All NoAbort) (read_vxid rd v) _ (λ vxid e. tt)
common-NoAbort rd s (v ∷ t ∷ more) tests h k =
    >>=-Ensures (All NoAbort) (read_vxid rd v) _ λ vxid _.
      >>=-Ensures (All NoAbort) (read_tag rd t) _ λ tag _.
        >>=-Ensures (All NoAbort) (read_vre rd (fourth more)) _ λ vre _.
          All-snoc NoAbort tests (record { vxid = vxid; tag = tag; vre = vre; skip_max = s }) k h

read_skip-ne-abort : (rd : Readers) (w : Bytes) (s : Skip) → read_skip rd w ≡ ret s → s ≢ abort
unfolding read_skip positive
read_skip-ne-abort rd w s e f = ground arith

expect-NoAbort :
    (rd : Readers) (ws : List Bytes) (tests : List Test)
    → All NoAbort tests
    → Ensures (All NoAbort) (cmd_logexp_expect rd ws tests)
unfolding cmd_logexp_expect
expect-NoAbort rd (s ∷ v ∷ t ∷ []) tests h =
    >>=-Ensures (All NoAbort) (read_skip rd s) _
      λ k e. common-NoAbort rd k (v ∷ t ∷ []) tests (read_skip-ne-abort rd s k e) h
expect-NoAbort rd (s ∷ v ∷ t ∷ p ∷ []) tests h =
    >>=-Ensures (All NoAbort) (read_skip rd s) _
      λ k e. common-NoAbort rd k (v ∷ t ∷ p ∷ []) tests (read_skip-ne-abort rd s k e) h
expect-NoAbort rd _ tests h = tt

fail_add-NoAbort :
    (rd : Readers) (ws : List Bytes) (tests : List Test)
    → All NoAbort tests
    → Ensures (All NoAbort) (cmd_logexp_fail_add rd ws tests)
unfolding cmd_logexp_fail_add
fail_add-NoAbort rd (v ∷ t ∷ more) tests h = common-NoAbort rd fail (v ∷ t ∷ more) tests (λ e. cc) h
fail_add-NoAbort rd _ tests h = tt

fail-NoAbort :
    (rd : Readers) (ws : List Bytes) (tests : List Test)
    → All NoAbort tests
    → Ensures (All NoAbort) (cmd_logexp_fail rd ws tests)
unfolding cmd_logexp_fail
fail-NoAbort rd [] tests h = tt
fail-NoAbort rd (w ∷ more) tests h = elim (Bool-cases (same_text w (codes "clear"))) [
  | inl is_clear ↦ rw is_clear (All-snoc NoAbort tests clear_test h (λ e. cc))
  | inr other ↦ elim (Bool-cases (same_text w (codes "add"))) [
    | inl is_add ↦ rw (other, is_add) (fail_add-NoAbort rd more tests h)
    | inr none_of ↦ rw (other, none_of) tt
  ]
]

-- A line of `expect` or `fail`
abbrev pub IsCheck : Line → Type 0
IsCheck (expect_line ws) = Unit {0}
IsCheck (fail_line ws) = Unit {0}
IsCheck (abort_line ws) = ⊥

spec_loop-NoAbort :
    (rd : Readers) (ls : List Line) (tests : List Test)
    → All IsCheck ls
    → All NoAbort tests
    → Ensures (All NoAbort) (spec_loop rd ls tests)
unfolding spec_loop run_line
spec_loop-NoAbort rd [] tests c h = h
spec_loop-NoAbort rd (expect_line ws ∷ ls) tests (c, cs) h =
    >>=-Ensures (All NoAbort) (cmd_logexp_expect rd ws tests) _
      λ ts e. spec_loop-NoAbort rd ls ts cs (rw e at (expect-NoAbort rd ws tests h))
spec_loop-NoAbort rd (fail_line ws ∷ ls) tests (c, cs) h =
    >>=-Ensures (All NoAbort) (cmd_logexp_fail rd ws tests) _
      λ ts e. spec_loop-NoAbort rd ls ts cs (rw e at (fail-NoAbort rd ws tests h))
spec_loop-NoAbort rd (abort_line ws ∷ ls) tests (c, cs) h = absurd c

Ensures-eq {ℓ κ} :
    {A : Type ℓ} (P : A → Type κ) {m : Outcome A} {a : A} → Ensures P m → m ≡ ret a → P a
Ensures-eq P h e = rw e at h

-- How a dispatch goes, where there is something to expect
abbrev pub Dispatches : Vsl → List Rec → Logexp → Type 0
Dispatches v rs le =
    (logexp_done le ≡ true)
    ⊎ ((logexp_done le ≡ false) × Returns Dispatched (logexp_dispatch v rs le))

-- For the tests that any lines of `expect` and `fail` leave, none of which ends the test case: the thread
-- begins without an assertion that fails; then there is nothing to expect, or logexp_dispatch of fewer than
-- 2 ^ 31 records returns, so that none of its assertions fails. It answers 2, or 1 where nothing is left to
-- expect, or 0 where something is.
pub logexp_spec-Dispatches :
    (rd : Readers) (ls : List Line) (v : Vsl) (rs : List Rec) (tests : List Test)
    → All IsCheck ls
    → logexp_spec rd ls ≡ ret tests
    → length rs < 2 ^ 31
    → Returns (Dispatches v rs) (logexp_next (logexp_start tests))
unfolding logexp_spec logexp_next
logexp_spec-Dispatches rd ls v rs tests checks e few =
    let clean = Ensures-eq (All NoAbort) (spec_loop-NoAbort rd ls [] checks tt) e in
    Returns-map (Landed (logexp_start tests)) (Dispatches v rs) _
      (start-IsSound (logexp_start tests) clean)
      λ le h. elim (Bool-cases (logexp_done le)) [
        | inl over ↦ inl over
        | inr open_le ↦
            inr (open_le, logexp_dispatch-IsSound v rs le h.0 open_le (omega (arith, h.1)))
      ]
