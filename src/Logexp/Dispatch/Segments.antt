-- ===== src/Logexp/Dispatch/Segments.antt =====
-- Expectations on a log one after the other (src/vtc_logexp.c): each finds its record within as many as it
-- may skip, and the thread of the log ends well, however the log arrives.
use vtest.Base.{
  ℕ, suc, ◌+◌, ◌≡◌, ◌≢◌, refl, ap, ◌⊎◌, inl, inr, List, [], ◌∷◌, ◌++◌, map, Bool, true, Option,
  none, some, Outcome, ret, aborted, undefined, Returns, ◌>>=◌, arith, All, length,
}
use vtest.Logexp.{Test, Rec, Vsl, Logexp, logexp_clean, clean_test, next_from, logexp_next}
use vtest.Logexp.Dispatch.{
  logexp_done, passes, logexp_dispatch, records, done, after_dispatch, thread_loop, logexp_thread,
}
use vtest.Logexp.Dispatch.Expected.{
  Accepts, expected, all_expected, MaySkip, stand, MoreTo, dispatch_one-miss, land-expected,
  dispatch_one-hit,
}

-- The log has a record for each test, and in front of it others that the test may skip, none of them
-- matched by it or the end of a transaction; the dispatch passes over none of these. Behind the last
-- may stand anything.
pub data Segments (v : Vsl) : Option ℕ → Option ℕ → List (Option ℕ × Test) → List Rec → Type 0 where
  ended : {vxid tag : Option ℕ} (rs : List Rec) → Segments v vxid tag [] rs
  segment :
      {vxid tag : Option ℕ} {es : List (Option ℕ × Test)} {rs all : List Rec} (limit : Option ℕ)
      (t : Test) (gap : List Rec) (r : Rec)
      → all ≡ gap ++ r ∷ rs
      → All (λ q. (passes v q ≡ true) × (q.tag ≢ v.slt_end) × (¬ (Accepts v vxid tag t q))) gap
      → MaySkip limit (length gap)
      → passes v r ≡ true
      → Accepts v vxid tag t r
      → Segments v (some r.vxid) (some r.tag) es rs
      → Segments v vxid tag ((limit, t) ∷ es) all

-- The same, record by record, where so many were skipped before
abbrev Expects : Vsl → Option ℕ → Option ℕ → ℕ → List (Option ℕ × Test) → List Rec → Type 0
Expects v vxid tag k [] rs = Unit {0}
Expects v vxid tag k (e ∷ es) [] = ⊥
Expects v vxid tag k ((limit, t) ∷ es) (r ∷ rs) =
    ((passes v r ≡ true) × Accepts v vxid tag t r × Expects v (some r.vxid) (some r.tag) 0 es rs)
    ⊎ ((passes v r ≡ true)
        × MoreTo limit k
        × (r.tag ≢ v.slt_end)
        × (¬ (Accepts v vxid tag t r))
        × Expects v vxid tag (k + 1) ((limit, t) ∷ es) rs)

MoreTo-MaySkip : (limit : Option ℕ) (k n : ℕ) → MaySkip limit (k + suc n) → MoreTo limit k
MoreTo-MaySkip none k n h = omega arith
MoreTo-MaySkip (some m) k n h = omega arith

Expects-gap :
    (v : Vsl) (vxid tag : Option ℕ) (k : ℕ) (limit : Option ℕ) (t : Test)
    (es : List (Option ℕ × Test)) (gap rs : List Rec) (r : Rec)
    → All (λ q. (passes v q ≡ true) × (q.tag ≢ v.slt_end) × (¬ (Accepts v vxid tag t q))) gap
    → MaySkip limit (k + length gap)
    → passes v r ≡ true
    → Accepts v vxid tag t r
    → Expects v (some r.vxid) (some r.tag) 0 es rs
    → Expects v vxid tag k ((limit, t) ∷ es) (gap ++ r ∷ rs)
Expects-gap v vxid tag k limit t es [] rs r h m p a more = inl (p, a, more)
Expects-gap v vxid tag k limit t es (q ∷ gap) rs r ((pq, eq, nq), h) m p a more =
    let e : k + 1 + length gap ≡ k + suc (length gap) = omega arith in
    inr (
      pq,
      MoreTo-MaySkip limit k (length gap) m,
      eq,
      nq,
      Expects-gap v vxid tag (k + 1) limit t es gap rs r h (rw e m) p a more,
    )

Expects-Segments :
    (v : Vsl) {vxid tag : Option ℕ} {es : List (Option ℕ × Test)} {rs : List Rec}
    → Segments v vxid tag es rs
    → Expects v vxid tag 0 es rs
Expects-Segments v (ended rs) = tt
Expects-Segments v (segment {vxid = x} {tag = y} {es = es} {rs = rs} limit t gap r e h m p a more) =
    let z : 0 + length gap ≡ length gap = omega arith in
    rw e (Expects-gap v x y 0 limit t es gap rs r h (rw z m) p a (Expects-Segments v more))

-- After some of the records: all tests are over, or the walk stands at one that has its record to come.
abbrev Going : Vsl → List Rec → ℕ × Logexp → Type 0
Going v rs (i, le) =
    ((i ≡ 1) × (logexp_done le ≡ true))
    ⊎ ((i ≡ 0)
        × ((before : List Test) × (e : Option ℕ × Test) × (es : List (Option ℕ × Test)) × (k : ℕ)
            × (vxid : Option ℕ) × (tag : Option ℕ) × (le ≡ stand before (e ∷ es) k vxid tag)
            × Expects v vxid tag k (e ∷ es) rs))

dispatch-Expects :
    (v : Vsl) (xs ys : List Rec) (before : List Test) (e : Option ℕ × Test)
    (es : List (Option ℕ × Test)) (k : ℕ) (vxid tag : Option ℕ)
    → Expects v vxid tag k (e ∷ es) (xs ++ ys)
    → Returns (Going v ys) (logexp_dispatch v xs (stand before (e ∷ es) k vxid tag))
unfolding logexp_dispatch logexp_done
dispatch-Expects v [] ys before e es k vxid tag h =
    inr (refl, (before, e, es, k, vxid, tag, refl, h))
dispatch-Expects v (r ∷ xs) ys before (limit, t) [] k vxid tag (inl (p, a, more)) =
    rw (dispatch_one-hit v before limit t [] k vxid tag r p a) (inl (refl, refl))
dispatch-Expects v (r ∷ xs) ys before (limit, t) (e ∷ es) k vxid tag (inl (p, a, more)) =
    rw (dispatch_one-hit v before limit t (e ∷ es) k vxid tag r p a) (
      dispatch-Expects v xs ys (before ++ expected (limit, t) ∷ []) e es 0 (some r.vxid)
        (some r.tag) more)
dispatch-Expects v (r ∷ xs) ys before (limit, t) es k vxid tag (inr (p, m, ne, na, more)) =
    rw (dispatch_one-miss v before limit t es k vxid tag r p m ne na)
      (dispatch-Expects v xs ys before (limit, t) es (k + 1) vxid tag more)

-- The records of all rounds
abbrev pub joined : List (List Rec) → List Rec
joined [] = []
joined (rs ∷ rss) = rs ++ joined rss

thread_loop-done :
    (v : Vsl) (err_arg : Bool) (rss : List (List Rec)) (le : Logexp)
    → logexp_done le ≡ true
    → thread_loop v err_arg (map records rss) le ≡ ret done
unfolding thread_loop
thread_loop-done v err_arg [] le e = rw e
thread_loop-done v err_arg (rs ∷ rss) le e = rw e

after_round :
    (v : Vsl) (err_arg : Bool) (rss : List (List Rec)) (d : Outcome (ℕ × Logexp))
    → Returns (Going v (joined rss)) d
    → ((before : List Test) (es : List (Option ℕ × Test)) (k : ℕ) (vxid tag : Option ℕ)
        → Expects v vxid tag k es (joined rss)
        → thread_loop v err_arg (map records rss) (stand before es k vxid tag) ≡ ret done)
    → (d >>= λ d'. after_dispatch err_arg d' (λ le'. thread_loop v err_arg (map records rss) le'))
      ≡ ret done
unfolding after_dispatch
after_round v err_arg rss (ret (i, le)) (inl (one, all_done)) again =
    rw one (thread_loop-done v err_arg rss le all_done)
after_round v err_arg rss (ret (i, le)) (inr (zero_is, there)) again =
    let (before, e, es, k, vxid, tag, is, more) = there in
    rw (zero_is, is) (again before (e ∷ es) k vxid tag more)
after_round v err_arg rss aborted h again = absurd h
after_round v err_arg rss undefined h again = absurd h

thread_loop-Expects :
    (v : Vsl) (err_arg : Bool) (rss : List (List Rec)) (before : List Test)
    (es : List (Option ℕ × Test)) (k : ℕ) (vxid tag : Option ℕ)
    → Expects v vxid tag k es (joined rss)
    → thread_loop v err_arg (map records rss) (stand before es k vxid tag) ≡ ret done
unfolding thread_loop logexp_done
thread_loop-Expects v err_arg [] before [] k vxid tag h = refl
thread_loop-Expects v err_arg [] before (e ∷ es) k vxid tag h = absurd h
thread_loop-Expects v err_arg (rs ∷ rss) before [] k vxid tag h = refl
thread_loop-Expects v err_arg (rs ∷ rss) before (e ∷ es) k vxid tag h =
    after_round v err_arg rss (logexp_dispatch v rs (stand before (e ∷ es) k vxid tag))
      (dispatch-Expects v rs (joined rss) before e es k vxid tag h)
      (thread_loop-Expects v err_arg rss)

clean-expected : (es : List (Option ℕ × Test)) → logexp_clean (all_expected es) ≡ all_expected es
unfolding logexp_clean clean_test
clean-expected [] = refl
clean-expected ((none, t) ∷ es) = ap (◌∷◌ (expected (none, t))) (clean-expected es)
clean-expected ((some n, t) ∷ es) = ap (◌∷◌ (expected (some n, t))) (clean-expected es)

-- For tests that are numbers of records to skip or `*`, and a log in which each has its record, behind no
-- more than it may skip and fewer than 2 ^ 31, none of which it matches or ends a transaction, and in which
-- the dispatch passes over none of these: in whatever rounds the log arrives and whatever stands behind,
-- the thread logs `done` and ends. The argument -err makes no difference.
pub logexp_thread-Segments :
    (v : Vsl) (err_arg : Bool) (rss : List (List Rec)) (es : List (Option ℕ × Test))
    → Segments v none none es (joined rss)
    → logexp_thread v err_arg (map records rss) (all_expected es) ≡ ret done
unfolding logexp_thread logexp_next next_from
logexp_thread-Segments v err_arg rss es h =
    rw (clean-expected es, land-expected [] es _)
      (thread_loop-Expects v err_arg rss [] es 0 none none (Expects-Segments v h))
