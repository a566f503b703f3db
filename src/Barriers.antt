-- ===== src/Barriers.antt =====
-- Barriers between the threads of a test: src/vtc_barrier.c, without those that go over a socket. A step of
-- a thread is what it does between taking the mutex and giving it back.
pub mod Waiting
pub mod Early
use vtest.Base.{
  ℕ, suc, ◌+◌, ◌^◌, ◌≡◌, ◌≢◌, List, [], ◌∷◌, ◌++◌, Bool, true, false, not, ◌&&◌, ◌==◌, ltb, leb,
  if◌then◌else◌, Outcome, ret, aborted, ◌>>=◌,
}

-- enum barrier_e
pub data BarrierE : Type 0 where
  barrier_none barrier_cond barrier_sock : BarrierE

abbrev is_cond : BarrierE → Bool
is_cond barrier_cond = true
is_cond _ = false

abbrev is_none : BarrierE → Bool
is_none barrier_none = true
is_none _ = false

-- struct barrier. `expected` is an int that is set from an unsigned: from 2 ^ 31 on it is negative.
pub record Barrier : Type 0 where
  pub waiters : ℕ
  pub expected : ℕ
  pub cyclic : Bool
  pub type : BarrierE
  pub cond_cycle : ℕ

unfoldable pub barrier_new : Barrier
barrier_new = record {
  waiters = 0;
  expected = 0;
  cyclic = false;
  type = barrier_none;
  cond_cycle = 0;
}

-- `expected` is the number that `strtoul` reads, as an unsigned.
unfoldable pub barrier_expect : Barrier → ℕ → Outcome Barrier
barrier_expect b expected =
    if not (is_none b.type)
    then aborted
    else if not ((b.expected == 0) && (b.waiters == 0))
    then aborted
    else if ltb expected 2
    then aborted
    else ret (record b { expected = expected })

unfoldable pub set_cond : Barrier → Barrier
set_cond b = record b { type = barrier_cond }

unfoldable pub barrier_cond_init : Barrier → ℕ → Outcome Barrier
barrier_cond_init b expected = do b' ← barrier_expect b expected; ret (set_cond b')

-- `barrier_cyclic`, where no thread comes between its two locks: it is called before the barrier is
-- used.
pub barrier_cyclic : Barrier → Outcome Barrier
barrier_cyclic b =
    if is_none b.type
    then aborted
    else if not (b.waiters == 0)
    then aborted
    else ret (record b { cyclic = true })

-- A thread at `barrier_cond_sync`: it has not come yet; it is between the two locks, with `w` and `c`;
-- it waits; or it has passed.
pub data Thread : Type 0 where
  away : Thread
  between : (w c : ℕ) → Thread
  waiting : (w c : ℕ) → Thread
  passed : Thread

-- From the first lock on, until it is given back: the barrier and the thread, unless the barrier has
-- all its waiters, or never can have them.
unfoldable pub come : Barrier → Outcome (Barrier × Thread)
come b =
    if not (is_cond b.type)
    then aborted
    else if not (leb b.waiters b.expected && ltb b.expected (2 ^ 31))
    then aborted
    else if b.waiters == b.expected
    then aborted
    else let w = suc b.waiters in ret (record b { waiters = w }, between w b.cond_cycle)

-- From the second lock to its end, or to the first `pthread_cond_timedwait`
unfoldable pub sync : Barrier → (w c : ℕ) → Barrier × Thread
sync b w c =
    if w == b.expected
    then (
      record b { cond_cycle = suc b.cond_cycle; waiters = if b.cyclic then 0 else b.waiters },
      passed,
    )
    else (b, waiting w c)

-- The barrier and the threads that use it
pub record System : Type 0 where
  pub b : Barrier
  pub threads : List Thread

abbrev pub system : Barrier → List Thread → System
system b ts = record { b = b; threads = ts }

-- A step of one thread among the others. A thread that waits goes on when the cycle has changed: a
-- broadcast or the time-out wakes it. `vtc_stop` and `vtc_error` are not set.
pub data Step : System → System → Type 0 where
  comes :
      (b b' : Barrier) (t : Thread) (before after : List Thread)
      → come b ≡ ret (b', t)
      → Step (system b (before ++ away ∷ after)) (system b' (before ++ t ∷ after))
  syncs :
      (b : Barrier) (w c : ℕ) (before after : List Thread)
      → Step
          (system b (before ++ between w c ∷ after))
          (system (sync b w c).0 (before ++ (sync b w c).1 ∷ after))
  goes_on :
      (b : Barrier) (w c : ℕ) (before after : List Thread)
      → c ≢ b.cond_cycle
      → Step (system b (before ++ waiting w c ∷ after)) (system b (before ++ passed ∷ after))

-- `pthread_cond_timedwait` may also return 0 with no broadcast; the loop ends then, too.
pub data Spurious : System → System → Type 0 where
  wakes :
      (b : Barrier) (w c : ℕ) (before after : List Thread)
      → Spurious (system b (before ++ waiting w c ∷ after)) (system b (before ++ passed ∷ after))
