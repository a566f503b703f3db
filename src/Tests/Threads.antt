-- ===== src/Tests/Threads.antt =====
-- Barriers at concrete threads.
use vtest.Base.{ℕ, ◌≡◌, refl, [], ◌∷◌, false, ret, arith}
use vtest.Barriers.Waiting.{Reach, here, next, came, Reach-came}
use vtest.Barriers.Early.{first_goes_alone}
use vtest.Barriers.{
  Barrier, barrier_cond, barrier_new, barrier_expect, set_cond, barrier_cond_init, away, between,
  passed, come, sync, System, system, comes, syncs, Spurious,
}

-- A barrier for two threads, with so many waiters.
abbrev for_two : ℕ → ℕ → Barrier
for_two waiters cycle = record {
  waiters = waiters;
  expected = 2;
  cyclic = false;
  type = barrier_cond;
  cond_cycle = cycle;
}

for_two-made : barrier_cond_init barrier_new 2 ≡ ret (for_two 0 0)
unfolding barrier_cond_init barrier_expect set_cond barrier_new
for_two-made = refl

-- Both come, the second first at its second lock.
both_come :
    Reach
      (system (for_two 0 0) (away ∷ away ∷ []))
      (system (for_two 2 1) (between 1 0 ∷ passed ∷ []))
unfolding come sync
both_come =
    next
      (next (next here (comes (for_two 0 0) (for_two 1 0) (between 1 0) [] (away ∷ []) refl))
        (comes (for_two 1 0) (for_two 2 0) (between 2 0) (between 1 0 ∷ []) [] refl))
      (syncs (for_two 2 0) 2 0 (between 1 0 ∷ []) [])

Reach-came_example : came (between 1 0 ∷ passed ∷ []) ≡ 2
Reach-came_example =
    Reach-came 2 2 (for_two 0 0) (system (for_two 2 1) (between 1 0 ∷ passed ∷ []))
      (between 1 0 ∷ []) [] for_two-made both_come refl

first_goes_alone_example :
    (s s' : System) × Reach (system (for_two 0 0) (away ∷ [])) s
    × Spurious s s'
    × (s'.threads ≡ passed ∷ [])
first_goes_alone_example = first_goes_alone 2 (for_two 0 0) for_two-made (omega arith)
