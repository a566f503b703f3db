-- ===== src/Logexp/Dispatch/Sound.antt =====
-- The state of an expectation on a log between two records (src/vtc_logexp.c), and that no assertion of
-- the match fails in it.
use vtest.Base.{
  ℕ, suc, ◌+◌, ◌-◌, ◌^◌, ◌<◌, ◌≡◌, ◌≢◌, refl, sym, ◌⊎◌, inl, inr, List, [], ◌∷◌, true, false, ◌==◌,
  if◌then◌else◌, Outcome, ret, ◌>>=◌, some, Returns, >>=-Returns, arith, All, length, Bool-cases,
}
use mathlib.Core.Path.{subst}
use vtest.Logexp.{
  Skip, upto, any, alt, seen, fail, clear, abort, Test, Rec, Vsl, Logexp, Lem, lem_ok, lem_skip,
  lem_fail, next_from, logexp_next, matched, skips, verdict, behind, match_alt, logexp_match,
}
use vtest.Logexp.Dispatch.{
  failchk_loop, failchk_of, logexp_failchk, is_empty, none_left, logexp_done, passes, Seen, goes_on,
  ends, after_match, match_current, dispatch_one, logexp_dispatch,
}
use vtest.Logexp.Dispatch.Walk.{
  NoAbort, IsFail, Waits, FirstWaits, IsSound, Landed, next_from-IsSound,
}

-- What a match does to the tests: none becomes an `abort`; a record that is skipped changes none.
abbrev Matched : List Test → Lem × List Test → Type 0
Matched ts (answer, ts') = All NoAbort ts' × (answer ≡ lem_skip → ts' ≡ ts) × (is_empty ts' ≡ false)

match_alt-ne-nil :
    (v : Vsl) (le : Logexp) (t : Test) (ts : List Test) (r : Rec)
    → is_empty (match_alt v le (t ∷ ts) r).1 ≡ false
unfolding match_alt behind
match_alt-ne-nil v le t ts r = ground arith

match_alt-Matched :
    (v : Vsl) (le : Logexp) (ts : List Test) (r : Rec)
    → All NoAbort ts
    → All NoAbort (match_alt v le ts r).1 × ((match_alt v le ts r).0 ≢ lem_skip)
unfolding match_alt behind
match_alt-Matched v le [] r h = (tt, λ e. cc)
match_alt-Matched v le (t ∷ ts) r (h, hs) = ground (arith, match_alt-Matched v le ts r hs)

verdict_of :
    (v : Vsl) (le : Logexp) (s : Skip) (t : Test) (ts : List Test) (r : Rec)
    → t.skip_max ≡ s
    → Waits s
    → All NoAbort (t ∷ ts)
    → (m : Lem × List Test) × (logexp_match v le (t ∷ ts) r ≡ ret m) × Matched (t ∷ ts) m
unfolding logexp_match
verdict_of v le (upto n) t ts r e w h =
    ((verdict v le t r, t ∷ ts), ground arith, (h, (λ k. refl), refl))
verdict_of v le any t ts r e w h =
    ((verdict v le t r, t ∷ ts), ground arith, (h, (λ k. refl), refl))
verdict_of v le alt t ts r e w h =
    let (kept, no_skip) = match_alt-Matched v le (t ∷ ts) r h in
    (
      match_alt v le (t ∷ ts) r,
      ground arith,
      (kept, (λ k. absurd (no_skip k)), match_alt-ne-nil v le t ts r),
    )
verdict_of v le seen t ts r e w h = absurd w
verdict_of v le fail t ts r e w h = absurd w
verdict_of v le clear t ts r e w h = absurd w
verdict_of v le abort t ts r e w h = absurd w

verdict-fail :
    (v : Vsl) (le : Logexp) (t : Test) (r : Rec)
    → IsFail t
    → logexp_match v le (t ∷ []) r ≡ ret ((if matched v le t r then lem_ok else lem_fail), t ∷ [])
unfolding logexp_match verdict skips
verdict-fail v le t r e = ground arith

pub failchk_loop-answers :
    (v : Vsl) (le : Logexp) (ts : List Test) (r : Rec)
    → All IsFail ts
    → (failchk_loop v le ts r ≡ ret lem_ok) ⊎ (failchk_loop v le ts r ≡ ret lem_fail)
unfolding failchk_loop
failchk_loop-answers v le [] r h = inl refl
failchk_loop-answers v le (t ∷ ts) r (e, h) = elim (Bool-cases (matched v le t r)) [
  | inl hit ↦ inr (rw (verdict-fail v le t r e, hit))
  | inr miss ↦ rw (verdict-fail v le t r e, miss) (failchk_loop-answers v le ts r h)
]

-- A state between two records, where fewer than 2 ^ 31 records come
abbrev pub Between : ℕ → Logexp → Type 0
Between n le = IsSound le × (logexp_done le ≡ false) × (le.skip_cnt + n < 2 ^ 31)

-- What a record leads to: the next state of this kind, the end of all tests, or a failure.
abbrev Goes : ℕ → Seen → Type 0
Goes n (goes_on le) = Between n le
Goes n (ends i le) = (i ≡ 2) ⊎ ((i ≡ 1) × IsSound le × (logexp_done le ≡ true))

Landed-Goes :
    (n : ℕ) (le le' : Logexp)
    → Landed le le'
    → le.skip_cnt + n < 2 ^ 31
    → Goes n (if logexp_done le' then ends 1 le' else goes_on le')
Landed-Goes n le le' (h, e) few = elim (Bool-cases (logexp_done le')) [
  | inl d ↦ rw d (inr (refl, h, d))
  | inr d ↦ rw d (h, d, omega arith)
]

after_match-Goes :
    (n : ℕ) (r : Rec) (le : Logexp) (answer : Lem) (ts : List Test)
    → IsSound le
    → logexp_done le ≡ false
    → le.skip_cnt + suc n < 2 ^ 31
    → Matched le.ahead (answer, ts)
    → Returns (Goes n) (after_match r le (answer, ts))
unfolding after_match logexp_next logexp_done
after_match-Goes n r le lem_fail ts h d few m = inl refl
after_match-Goes n r le lem_skip ts h d few (kept, same, some_left) =
    let more : (le.skip_cnt == 2 ^ 31 - 1) ≡ false = ground arith in
    let e : ts ≡ le.ahead = same refl in
    rw (more, e) (record { fails = h.fails; first = h.first; runs = h.runs }, d, omega arith)
after_match-Goes n r le lem_ok [] h d few (kept, same, some_left) = absurd (cc)
after_match-Goes n r le lem_ok (t ∷ ts) h d few (kept, same, some_left) =
    let le' : Logexp = record le {
      ahead = t ∷ ts;
      skip_cnt = 0;
      vxid_last = some r.vxid;
      tag_last = some r.tag;
    } in
    >>=-Returns (Landed le') (Goes n) (next_from (t ∷ ts) le') _
      (next_from-IsSound t ts le' h.fails kept)
      (λ next landed. Landed-Goes n le' next landed (omega arith))

-- The tests that must not match let the record pass or end the dispatch; they never skip it.
failchk_of-answers :
    (v : Vsl) (le : Logexp) (fs ts : List Test) (r : Rec)
    → All IsFail fs
    → none_left fs ts ≡ false
    → (failchk_of v le fs r ≡ ret lem_fail)
      ⊎ ((l : Lem) × (failchk_of v le fs r ≡ ret l)
          × (l ≢ lem_fail)
          × (is_empty ts ≡ true → l ≡ lem_ok))
unfolding failchk_of
failchk_of-answers v le [] ts r h d = inr (lem_skip, refl, (λ k. cc), (λ k. cc))
failchk_of-answers v le (f ∷ fs) ts r h d = elim (failchk_loop-answers v le (f ∷ fs) r h) [
  | inl ok ↦ inr (lem_ok, ok, (λ k. cc), (λ k. refl))
  | inr bad ↦ inl bad
]

current-Goes :
    (v : Vsl) (n : ℕ) (r : Rec) (le : Logexp) (t : Test) (ts : List Test)
    → IsSound le
    → logexp_done le ≡ false
    → le.skip_cnt + suc n < 2 ^ 31
    → le.ahead ≡ t ∷ ts
    → Waits t.skip_max
    → All NoAbort (t ∷ ts)
    → Returns (Goes n) (logexp_match v le (t ∷ ts) r >>= after_match r le)
current-Goes v n r le t ts h d few e waits runs =
    let (m, is, good) = verdict_of v le t.skip_max t ts r refl waits runs in
    rw is
      (after_match-Goes n r le m.0 m.1 h d few (subst (λ us. Matched us (m.0, m.1)) (sym e) good))

match_current-Goes :
    (v : Vsl) (n : ℕ) (r : Rec) (le : Logexp) (ts : List Test) (l : Lem)
    → Between (suc n) le
    → le.ahead ≡ ts
    → FirstWaits ts
    → All NoAbort ts
    → l ≢ lem_fail
    → (is_empty ts ≡ true → l ≡ lem_ok)
    → Returns (Goes n) (match_current v r le ts l)
unfolding match_current
match_current-Goes v n r le ts lem_fail (h, d, few) e waits runs go checked = absurd (go refl)
match_current-Goes v n r le [] lem_ok (h, d, few) e waits runs go checked = (h, d, omega arith)
match_current-Goes v n r le [] lem_skip (h, d, few) e waits runs go checked = cc (checked refl)
match_current-Goes v n r le (t ∷ ts) lem_ok (h, d, few) e waits (k, ks) go checked =
    current-Goes v n r le t ts h d few e waits (k, ks)
match_current-Goes v n r le (t ∷ ts) lem_skip (h, d, few) e waits (k, ks) go checked =
    current-Goes v n r le t ts h d few e waits (k, ks)

dispatch_one-Goes :
    (v : Vsl) (n : ℕ) (r : Rec) (le : Logexp)
    → Between (suc n) le
    → Returns (Goes n) (dispatch_one v r le)
unfolding dispatch_one logexp_failchk logexp_done
dispatch_one-Goes v n r le (h, d, few) = elim (Bool-cases (passes v r)) [
  | inr out ↦ rw out (h, d, omega arith)
  | inl here ↦ rw here (elim (failchk_of-answers v le le.failing le.ahead r h.fails d) [
    | inl bad ↦ rw bad (inl refl)
    | inr (l, is, go, checked) ↦
        rw is (match_current-Goes v n r le le.ahead l (h, d, few) refl h.first h.runs go checked)
  ])
]

-- What `logexp_dispatch` leaves behind.
abbrev pub Dispatched : ℕ × Logexp → Type 0
Dispatched (i, le) =
    (i ≡ 2)
    ⊎ ((i ≡ 1) × IsSound le × (logexp_done le ≡ true))
    ⊎ ((i ≡ 0) × IsSound le × (logexp_done le ≡ false))

Seen-cases :
    (n : ℕ) (f : Logexp → Outcome (ℕ × Logexp))
    → ((le : Logexp) → Between n le → Returns Dispatched (f le))
    → (s : Seen) → Goes n s
    → Returns Dispatched (elim s [ ends i le ↦ ret (i, le) | goes_on le ↦ f le ])
Seen-cases n f k (goes_on le) h = k le h
Seen-cases n f k (ends i le) (inl e) = inl e
Seen-cases n f k (ends i le) (inr (e, h, d)) = inr (inl (e, h, d))

-- Between two records, with fewer than 2 ^ 31 records skipped and to come: logexp_dispatch returns, so
-- that none of its assertions fails and nothing overflows. It answers 2, or 1 where nothing is left to
-- expect, or 0 where something is, and then the state is one between two records again.
pub logexp_dispatch-IsSound :
    (v : Vsl) (rs : List Rec) (le : Logexp)
    → IsSound le
    → logexp_done le ≡ false
    → le.skip_cnt + length rs < 2 ^ 31
    → Returns Dispatched (logexp_dispatch v rs le)
unfolding logexp_dispatch
logexp_dispatch-IsSound v [] le h d few = inr (inr (refl, h, d))
logexp_dispatch-IsSound v (r ∷ rs) le h d few =
    >>=-Returns (Goes (length rs)) Dispatched (dispatch_one v r le) _
      (dispatch_one-Goes v (length rs) r le (h, d, few))
      (Seen-cases (length rs) (logexp_dispatch v rs)
        (λ le' b. logexp_dispatch-IsSound v rs le' b.0 b.1 b.2))
