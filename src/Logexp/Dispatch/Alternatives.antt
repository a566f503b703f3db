-- ===== src/Logexp/Dispatch/Alternatives.antt =====
-- A block of alternatives in an expectation on a log (src/vtc_logexp.c): its records may come in any order.
use vtest.Base.{◌≡◌, refl, ap, List, [], ◌∷◌, ◌++◌, map, Bool, true, false, some, Returns, All}
use vtest.Base.Every.{All-split, All-append}
use vtest.Logexp.{Test, Rec, Vsl, Logexp}
use vtest.Logexp.Dispatch.{passes, logexp_dispatch}
use vtest.Logexp.Dispatch.Walk.{FirstWaits}
use vtest.Logexp.Dispatch.Marks.{
  accepts, IsFixed, alternative, taken, shows, Fixed, outstanding, pick, pick_all, takens,
}
use vtest.Logexp.Dispatch.Blocks.{Behind, block-dispatch}

-- Tests with a record for each, where a record is matched by its own test and by no other one
abbrev pub IsExclusive : Vsl → List (Test × Rec) → Type 0
IsExclusive v [] = Unit {0}
IsExclusive v ((t, r) ∷ ps) =
    (accepts v t r ≡ true)
    × All (λ p. (accepts v t p.1 ≡ false) × (accepts v p.0 r ≡ false)) ps
    × IsExclusive v ps

-- The records of the pairs in any order: the first is that of some pair, and so on.
pub data Reordered : List (Test × Rec) → List Rec → Type 0 where
  none_left : Reordered [] []
  some_pair :
      {ps : List (Test × Rec)} {rs : List Rec} (xs ys : List (Test × Rec)) (t : Test) (r : Rec)
      → ps ≡ xs ++ (t, r) ∷ ys
      → Reordered (xs ++ ys) rs
      → Reordered ps (r ∷ rs)

abbrev pub tests_of : List (Test × Rec) → List Test
tests_of [] = []
tests_of ((t, r) ∷ ps) = t ∷ tests_of ps

IsExclusive-others :
    (v : Vsl) (xs ys : List (Test × Rec)) (t : Test) (r : Rec)
    → IsExclusive v (xs ++ (t, r) ∷ ys)
    → IsExclusive v (xs ++ ys)
      × (pick v r (tests_of (xs ++ (t, r) ∷ ys)) ≡ some (tests_of (xs ++ ys)))
IsExclusive-others v [] ys t r (own, others, h) = (h, rw own)
IsExclusive-others v ((u, q) ∷ xs) ys t r (own, others, h) =
    let (h', e) = IsExclusive-others v xs ys t r h in
    let (before, at, after) =
      All-split (λ p. (accepts v u p.1 ≡ false) × (accepts v p.0 q ≡ false)) xs (t, r) ys others in
    ((own, All-append _ xs ys before after, h'), rw (at.0, e))

pick_all-Reordered :
    (v : Vsl) {ps : List (Test × Rec)} {rs : List Rec}
    → IsExclusive v ps
    → Reordered ps rs
    → pick_all v rs (tests_of ps) ≡ some []
pick_all-Reordered v h none_left = refl
pick_all-Reordered v h (some_pair xs ys t r e more) =
    let (h', first) = IsExclusive-others v xs ys t r (rw e at h) in
    rw (e, first, pick_all) (pick_all-Reordered v h' more)

abbrev untaken : List Test → List (Bool × Test)
untaken [] = []
untaken (t ∷ ts) = (false, t) ∷ untaken ts

untaken_laws :
    (ts : List Test)
    → All IsFixed ts
    → (shows (untaken ts) ≡ map alternative ts)
      × (outstanding (untaken ts) ≡ ts)
      × (takens (untaken ts) ≡ map taken ts)
      × Fixed (untaken ts)
untaken_laws [] h = (refl, refl, refl, tt)
untaken_laws (t ∷ ts) (h, hs) =
    let (shown_ts, out, taken_ts, fixed) = untaken_laws ts hs in
    (ap (◌∷◌ (alternative t)) shown_ts, ap (◌∷◌ t) out, ap (◌∷◌ (taken t)) taken_ts, (h, fixed))

-- The walk stands at a block of alternatives, each of which names its vxid and tag without `=`, and
-- nothing must not match; each alternative has a record that it matches and no other alternative does,
-- and none of them is a record that the dispatch passes over; behind the block stands a test that waits
-- for a record, or none. In whatever order these records come, logexp_dispatch takes them all: it answers
-- 1 if nothing stands behind the block, and else 0 with the walk at the test behind it.
pub logexp_dispatch-Reordered :
    (v : Vsl) (t : Test) (r : Rec) (ps : List (Test × Rec)) (rs : List Rec)
    (before after : List Test) (le : Logexp)
    → All IsFixed (tests_of ((t, r) ∷ ps))
    → IsExclusive v ((t, r) ∷ ps)
    → Reordered ((t, r) ∷ ps) rs
    → All (λ q. passes v q ≡ true) rs
    → FirstWaits after
    → Returns (Behind (before ++ map taken (tests_of ((t, r) ∷ ps))) after) (
        logexp_dispatch v rs (record le {
          before = before;
          ahead = map alternative (tests_of ((t, r) ∷ ps)) ++ after;
          failing = [];
        }))
logexp_dispatch-Reordered v t r ps rs before after le (h, hs) ex re pass w =
    let (shown_ts, out, taken_ts, fixed) = untaken_laws (tests_of ps) hs in
    rw (← shown_ts, ← taken_ts)
      (block-dispatch v rs after w pass before (untaken (tests_of ps)) le t (h, fixed)
        (rw out (pick_all-Reordered v ex re)))
