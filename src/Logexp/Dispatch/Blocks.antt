-- ===== src/Logexp/Dispatch/Blocks.antt =====
-- The dispatch of records to a block of alternatives (src/vtc_logexp.c).
use vtest.Base.{
  ℕ, ◌≡◌, refl, sym, ap, ◌∙◌, List, [], ◌∷◌, ◌++◌, append_assoc, append-nil, Bool, true, false,
  if◌then◌else◌, some, Outcome, ret, ◌>>=◌, Returns, arith, All, Bool-cases, Option-cases, inl, inr,
}
use mathlib.Core.Option.{some_inj}
use vtest.Logexp.{
  Skip, upto, any, alt, seen, fail, clear, abort, Test, Rec, Vsl, Logexp, land, next_from,
  logexp_next, is_alt, logexp_match,
}
use vtest.Logexp.Dispatch.{
  failchk_of, logexp_failchk, is_empty, logexp_done, passes, Seen, goes_on, ends, after_match,
  match_current, dispatch_one, logexp_dispatch,
}
use vtest.Logexp.Dispatch.Walk.{FirstWaits, Waits}
use vtest.Logexp.Dispatch.Marks.{
  accepts, taken, shows, put-inv, mark, Fixed, match_alt-mark, outstanding, pick, mark-pick,
  pick_all, takens, mark-takens,
}

-- The marked tests at the front, and those from the first on that is not
abbrev front : List (Bool × Test) → List Test
front [] = []
front ((true, t) ∷ ms) = taken t ∷ front ms
front ((false, t) ∷ ms) = []

abbrev rest_of : List (Bool × Test) → List (Bool × Test)
rest_of [] = []
rest_of ((true, t) ∷ ms) = rest_of ms
rest_of ((false, t) ∷ ms) = (false, t) ∷ ms

abbrev Settled : List Test → List (Bool × Test) → List Test → Logexp → Outcome Logexp
Settled before [] after le = land before after [] le
Settled before (m ∷ ms) after le =
    ret (record le { before = before; ahead = shows (m ∷ ms) ++ after; failing = [] })

land-shows :
    (before : List Test) (ms : List (Bool × Test)) (after : List Test) (le : Logexp)
    → land before (shows ms ++ after) [] le ≡ Settled (before ++ front ms) (rest_of ms) after le
unfolding land
land-shows before [] after le = rw append-nil
land-shows before ((true, t) ∷ ms) after le =
    rw (land-shows (before ++ taken t ∷ []) ms after le, append_assoc)
land-shows before ((false, t) ∷ ms) after le = rw append-nil

-- A block with the tests in front of it and behind it, where nothing must not match
abbrev pub block : List Test → List (Bool × Test) → List Test → Logexp → Logexp
block before ms after le = record le { before = before; ahead = shows ms ++ after; failing = [] }

-- After a record that matched
abbrev matching : Rec → Logexp → Logexp
matching r le = record le { skip_cnt = 0; vxid_last = some r.vxid; tag_last = some r.tag }

abbrev proceed : Outcome Logexp → Outcome Seen
proceed m = m >>= λ le'. ret (if logexp_done le' then ends 1 le' else goes_on le')

next-shows :
    (le : Logexp) (b : Bool) (t : Test) (ms : List (Bool × Test)) (after : List Test)
    → next_from (shows ((b, t) ∷ ms) ++ after) (record le { failing = [] })
      ≡ Settled
          (le.before ++ front ((b, t) ∷ ms))
          (rest_of ((b, t) ∷ ms))
          after
          (record le { failing = [] })
unfolding next_from is_alt
next-shows le true t ms after =
    rw (land-shows (le.before ++ taken t ∷ []) ms after (record le { failing = [] }), append_assoc)
next-shows le false t ms after =
    land-shows le.before ((false, t) ∷ ms) after (record le { failing = [] })

mark-ne-nil :
    (v : Vsl) (r : Rec) (m : Bool × Test) (ms : List (Bool × Test)) {ms' : List (Bool × Test)}
    → mark v r (m ∷ ms) ≡ some ms'
    → (b : Bool) × (t : Test) × (rest : List (Bool × Test)) × (ms' ≡ (b, t) ∷ rest)
mark-ne-nil v r (true, t) ms e =
    let (rest, _, same) = put-inv (true, t) (mark v r ms) e in (true, t, rest, same)
mark-ne-nil v r (false, t) ms e = elim (Bool-cases (accepts v t r)) [
  | inl hit ↦ (true, t, ms, sym (some_inj.0 (rw hit at e)))
  | inr miss ↦
      let (rest, _, same) = put-inv (false, t) (mark v r ms) (rw miss at e) in
      (false, t, rest, same)
]

-- A record that matches a test of the block
dispatch_one-mark :
    (v : Vsl) (r : Rec) (before : List Test) (t : Test) (ms : List (Bool × Test))
    (after : List Test) (le : Logexp) (b : Bool) (u : Test) (ms' : List (Bool × Test))
    → passes v r ≡ true
    → Fixed ((false, t) ∷ ms)
    → mark v r ((false, t) ∷ ms) ≡ some ((b, u) ∷ ms')
    → dispatch_one v r (block before ((false, t) ∷ ms) after le)
      ≡ proceed (
          Settled
            (before ++ front ((b, u) ∷ ms'))
            (rest_of ((b, u) ∷ ms'))
            after
            (matching r (block before ((b, u) ∷ ms') after le)))
unfolding dispatch_one logexp_failchk failchk_of match_current after_match logexp_match logexp_next
dispatch_one-mark v r before t ms after le b u ms' p h e =
    rw (p, match_alt-mark v (block before ((false, t) ∷ ms) after le) ((false, t) ∷ ms) after r h e)
      (ap proceed (next-shows (matching r (block before ((b, u) ∷ ms') after le)) b u ms' after))

-- The walk has come behind the block, with all its tests taken.
abbrev pub Behind : List Test → List Test → ℕ × Logexp → Type 0
Behind before after (i, le) =
    (le.before ≡ before)
    × (le.ahead ≡ after)
    × (le.failing ≡ [])
    × (i ≡ (if is_empty after then 1 else 0))

-- The first of the tests, if there is one, is not taken.
abbrev Leads : List (Bool × Test) → Type 0
Leads [] = Unit {0}
Leads ((true, t) ∷ ms) = ⊥
Leads ((false, t) ∷ ms) = Unit {0}

rest_of-laws :
    (ms : List (Bool × Test))
    → Fixed ms
    → Leads (rest_of ms)
      × Fixed (rest_of ms)
      × (outstanding (rest_of ms) ≡ outstanding ms)
      × (front ms ++ takens (rest_of ms) ≡ takens ms)
rest_of-laws [] h = (tt, tt, refl, refl)
rest_of-laws ((false, t) ∷ ms) h = (tt, h, refl, refl)
rest_of-laws ((true, t) ∷ ms) (h, hs) =
    let (lead, fixed, same, all) = rest_of-laws ms hs in (lead, fixed, same, ap (◌∷◌ (taken t)) all)

land-Waits :
    (k : Skip) (before ts : List Test) (t : Test) (le : Logexp)
    → t.skip_max ≡ k
    → Waits k
    → land before (t ∷ ts) [] le ≡ ret (record le { before = before; ahead = t ∷ ts; failing = [] })
unfolding land
land-Waits (upto n) before ts t le e w = ground arith
land-Waits any before ts t le e w = ground arith
land-Waits alt before ts t le e w = ground arith
land-Waits seen before ts t le e w = absurd w
land-Waits fail before ts t le e w = absurd w
land-Waits clear before ts t le e w = absurd w
land-Waits abort before ts t le e w = absurd w

abbrev step_on : Vsl → List Rec → Seen → Outcome (ℕ × Logexp)
step_on v rs s = elim s [ ends n le' ↦ ret (n, le') | goes_on le' ↦ logexp_dispatch v rs le' ]

-- Behind the block the walk stops at the first test.
Behind-block :
    (v : Vsl) (before after : List Test) (le : Logexp)
    → FirstWaits after
    → Returns (Behind before after) (proceed (land before after [] le) >>= step_on v [])
unfolding logexp_dispatch logexp_done land
Behind-block v before [] le w = (refl, refl, refl, refl)
Behind-block v before (t ∷ ts) le w =
    rw (land-Waits t.skip_max before ts t le refl w) (refl, refl, refl, refl)

abbrev BlockGoes : Vsl → List Rec → List Test → Type 0
BlockGoes v rs after =
    (before : List Test) (ms : List (Bool × Test)) (le : Logexp) (t : Test)
    → Fixed ((false, t) ∷ ms)
    → pick_all v rs (outstanding ((false, t) ∷ ms)) ≡ some []
    → Returns (Behind (before ++ takens ((false, t) ∷ ms)) after)
        (logexp_dispatch v rs (block before ((false, t) ∷ ms) after le))

settled-dispatch :
    (v : Vsl) (rs : List Rec) (before : List Test) (ms : List (Bool × Test)) (after : List Test)
    (le : Logexp)
    → FirstWaits after
    → Leads ms
    → Fixed ms
    → pick_all v rs (outstanding ms) ≡ some []
    → BlockGoes v rs after
    → Returns
        (Behind (before ++ takens ms) after)
        (proceed (Settled before ms after le) >>= step_on v rs)
unfolding logexp_done
settled-dispatch v [] before [] after le w lead h e again =
    rw append-nil (Behind-block v before after le w)
settled-dispatch v (r ∷ rs) before [] after le w lead h e again = cc
settled-dispatch v rs before ((true, t) ∷ ms) after le w lead h e again = absurd lead
settled-dispatch v rs before ((false, t) ∷ ms) after le w lead h e again = again before ms le t h e

picked :
    (v : Vsl) (r : Rec) (rs : List Rec) (ts : List Test)
    → pick_all v (r ∷ rs) ts ≡ some []
    → (ts' : List Test) × (pick v r ts ≡ some ts') × (pick_all v rs ts' ≡ some [])
picked v r rs ts e = elim (Option-cases (pick v r ts)) [
  | inl stuck ↦ cc (rw (stuck, pick_all) at e)
  | inr (ts', hit) ↦ (ts', hit, rw (hit, pick_all) at e)
]

pub block-dispatch :
    (v : Vsl) (rs : List Rec) (after : List Test)
    → FirstWaits after
    → All (λ r. passes v r ≡ true) rs
    → BlockGoes v rs after
unfolding logexp_dispatch
block-dispatch v [] after w p before ms le t h e = cc
block-dispatch v (r ∷ rs) after w (p, ps) before ms le t h e =
    let (ts', hit, left) = picked v r rs (t ∷ outstanding ms) e in
    let (ms', at, out) = mark-pick v r ((false, t) ∷ ms) hit in
    let (b, u, rest, is) = mark-ne-nil v r (false, t) ms at in
    let at' : mark v r ((false, t) ∷ ms) ≡ some ((b, u) ∷ rest) = rw at (ap some is) in
    let (fixed, same) = mark-takens v r ((false, t) ∷ ms) h at' in
    let (lead, fixed', out', all) = rest_of-laws ((b, u) ∷ rest) fixed in
    let le' : Logexp = matching r (block before ((b, u) ∷ rest) after le) in
    rw (dispatch_one-mark v r before t ms after le b u rest p h at', ← same, ← all, ← append_assoc)
      (settled-dispatch v rs (before ++ front ((b, u) ∷ rest)) (rest_of ((b, u) ∷ rest)) after le' w
        lead fixed' (ap (pick_all v rs) (out' ∙ ap outstanding (sym is) ∙ out) ∙ left)
        (block-dispatch v rs after w ps))
