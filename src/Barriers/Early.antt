-- ===== src/Barriers/Early.antt =====
-- What a wake-up with no broadcast does to a barrier (src/vtc_barrier.c).
use vtest.Barriers.Waiting.{Reach, here, next, barrier_cond_init_lem}
use vtest.Base.{ℕ, suc, ◌^◌, ◌≤◌, ◌<◌, ◌≡◌, refl, [], ◌∷◌, ret, arith}
use vtest.Barriers.{
  barrier_cond, Barrier, barrier_new, barrier_expect, barrier_cond_init, away, between, waiting,
  passed, come, sync, System, system, Step, comes, syncs, Spurious, wakes,
}

come_first :
    (b : Barrier)
    → b.type ≡ barrier_cond
    → b.waiters ≡ 0
    → 2 ≤ b.expected
    → b.expected < 2 ^ 31
    → come b ≡ ret (record b { waiters = suc b.waiters }, between (suc b.waiters) b.cond_cycle)
unfolding come
come_first b is_cond none_yet two small = ground (arith, is_cond, none_yet, two, small)

sync_first :
    (b : Barrier)
    → b.waiters ≡ 0
    → 2 ≤ b.expected
    → sync (record b { waiters = suc b.waiters }) (suc b.waiters) b.cond_cycle
      ≡ (record b { waiters = suc b.waiters }, waiting (suc b.waiters) b.cond_cycle)
unfolding sync
sync_first b none_yet two = ground (arith, none_yet, two)

barrier_cond_init-two : (n : ℕ) (b : Barrier) → barrier_cond_init barrier_new n ≡ ret b → 2 ≤ n
unfolding barrier_cond_init barrier_expect barrier_new
barrier_cond_init-two n b h = ground arith

-- With a spurious wake-up the first thread passes a barrier for `n` threads alone, for each `n` below
-- 2 ^ 31 that `barrier_cond` takes.
pub first_goes_alone :
    (n : ℕ) (b : Barrier)
    → barrier_cond_init barrier_new n ≡ ret b
    → n < 2 ^ 31
    → (s s' : System) × Reach (system b (away ∷ [])) s × Spurious s s' × (s'.threads ≡ passed ∷ [])
first_goes_alone n b made small =
    let (none_yet, wanted, once, is_cond) = barrier_cond_init_lem n b made in
    let two : 2 ≤ b.expected = omega (arith, wanted, barrier_cond_init-two n b made) in
    let b' = record b { waiters = suc b.waiters } in
    let w = suc b.waiters in
    let t = between w b.cond_cycle in
    let first = comes b b' t [] [] (come_first b is_cond none_yet two (omega (arith, wanted))) in
    let second : Step (system b' (t ∷ [])) (system b' (waiting w b.cond_cycle ∷ [])) =
      rw (sync_first b none_yet two) at (syncs b' w b.cond_cycle [] []) in
    (
      system b' (waiting w b.cond_cycle ∷ []),
      system b' (passed ∷ []),
      next (next here first) second,
      wakes b' w b.cond_cycle [] [],
      refl,
    )
