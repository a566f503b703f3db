-- ===== src/Barriers/Waiting.antt =====
-- What a barrier is for: no thread passes before all have come (src/vtc_barrier.c).
use vtest.Base.{
  ℕ, zero, suc, ◌+◌, ◌≤◌, ◌<◌, ◌≡◌, ◌≢◌, refl, sym, ◌∙◌, List, [], ◌∷◌, ◌++◌, false, ◌==◌, ret,
  arith, All, replicate, Bool-cases, inl, inr,
}
use vtest.Base.Every.{All-split, All-join}
use vtest.Barriers.{
  barrier_cond, Barrier, barrier_new, barrier_expect, barrier_cond_init, set_cond, Thread, away,
  between, waiting, passed, come, sync, System, system, Step, comes, syncs, goes_on,
}

-- Any number of steps
pub data Reach (s : System) : System → Type 0 where
  here : Reach s s
  next : {t u : System} → Reach s t → Step t u → Reach s u

-- How many threads have come.
abbrev has_come : Thread → ℕ
has_come away = 0
has_come (between w c) = 1
has_come (waiting w c) = 1
has_come passed = 1

abbrev pub came : List Thread → ℕ
came [] = 0
came (t ∷ ts) = has_come t + came ts

came-append : (xs ys : List Thread) → came (xs ++ ys) ≡ came xs + came ys
came-append [] ys = omega arith
came-append (x ∷ xs) ys = omega (arith, came-append xs ys)

-- A thread was counted, and one that saw another cycle, or that passed, has seen all come.
abbrev IsCounted : Barrier → Thread → Type 0
IsCounted b away = Unit
IsCounted b (between w c) = (w ≤ b.waiters) × (c ≢ b.cond_cycle → b.waiters ≡ b.expected)
IsCounted b (waiting w c) = c ≢ b.cond_cycle → b.waiters ≡ b.expected
IsCounted b passed = b.waiters ≡ b.expected

record IsSound (n : ℕ) (s : System) : Type 0 where
  wanted : s.b.expected ≡ n
  once : s.b.cyclic ≡ false
  counted : came s.threads ≡ s.b.waiters
  bounded : s.b.waiters ≤ s.b.expected
  each : All (IsCounted s.b) s.threads

All-map :
    (P Q : Thread → Type 0) (f : (t : Thread) → P t → Q t) (xs : List Thread) → All P xs → All Q xs
All-map P Q f [] h = tt
All-map P Q f (x ∷ xs) (h, hs) = (f x h, All-map P Q f xs hs)

-- Where a thread comes, the barrier was not full.
come_lem :
    (b b' : Barrier) (t : Thread)
    → come b ≡ ret (b', t)
    → (b.waiters < b.expected)
      × (b' ≡ record b { waiters = suc b.waiters })
      × (t ≡ between (suc b.waiters) b.cond_cycle)
unfolding come
come_lem b b' t h = (ground arith, ground arith, ground arith)

IsCounted-come :
    (b : Barrier) (t : Thread)
    → b.waiters < b.expected
    → IsCounted b t
    → IsCounted (record b { waiters = suc b.waiters }) t
IsCounted-come b away h k = tt
IsCounted-come b (between w c) h (k, l) = (omega arith, λ ne. absurd (omega (arith, l ne)))
IsCounted-come b (waiting w c) h k = λ ne. absurd (omega (arith, k ne))
IsCounted-come b passed h k = absurd (omega arith)

-- Once all have come, every thread is counted, whatever the cycle.
IsCounted-full :
    (b b' : Barrier) (t : Thread)
    → b'.waiters ≡ b.waiters
    → b'.waiters ≡ b'.expected
    → IsCounted b t
    → IsCounted b' t
IsCounted-full b b' away same full h = tt
IsCounted-full b b' (between w c) same full (h, k) = (omega arith, λ ne. full)
IsCounted-full b b' (waiting w c) same full h = λ ne. full
IsCounted-full b b' passed same full h = full

-- One thread of the list changes, and the barrier with it.
changed :
    (n : ℕ) (b b' : Barrier) (t t' : Thread) (before after : List Thread)
    → IsSound n (system b (before ++ t ∷ after))
    → b'.expected ≡ b.expected
    → b'.cyclic ≡ b.cyclic
    → b'.waiters ≤ b'.expected
    → b'.waiters + has_come t ≡ b.waiters + has_come t'
    → ((u : Thread) → IsCounted b u → IsCounted b' u)
    → IsCounted b' t'
    → IsSound n (system b' (before ++ t' ∷ after))
changed n b b' t t' before after inv same once most count keeps new =
    let (hs, h, hs') = All-split (IsCounted b) before t after inv.each in
    record {
      wanted = same ∙ inv.wanted;
      once = once ∙ inv.once;
      counted = omega (
        arith,
        inv.counted,
        came-append before (t ∷ after),
        came-append before (t' ∷ after),
        count,
      );
      bounded = most;
      each =
          All-join (IsCounted b') before t' after
            (All-map (IsCounted b) (IsCounted b') keeps before hs) new
            (All-map (IsCounted b) (IsCounted b') keeps after hs');
    }

-- The thread that a step is about.
at_step :
    (n : ℕ) (b : Barrier) (t : Thread) (before after : List Thread)
    → IsSound n (system b (before ++ t ∷ after))
    → IsCounted b t
at_step n b t before after inv = (All-split (IsCounted b) before t after inv.each).1

come-IsSound :
    (n : ℕ) (b : Barrier) (before after : List Thread)
    → b.waiters < b.expected
    → IsSound n (system b (before ++ away ∷ after))
    → IsSound n (
        system
          (record b { waiters = suc b.waiters })
          (before ++ between (suc b.waiters) b.cond_cycle ∷ after))
come-IsSound n b before after room inv =
    changed n b (record b { waiters = suc b.waiters }) away (between (suc b.waiters) b.cond_cycle)
      before after inv refl refl room (omega arith) (λ u. IsCounted-come b u room)
      (omega arith, λ ne. absurd (ne refl))

sync-IsSound :
    (n : ℕ) (b : Barrier) (w c : ℕ) (before after : List Thread)
    → IsSound n (system b (before ++ between w c ∷ after))
    → IsSound n (system (sync b w c).0 (before ++ (sync b w c).1 ∷ after))
unfolding sync
sync-IsSound n b w c before after inv =
    let (counted, other) = at_step n b (between w c) before after inv in
    elim (Bool-cases (w == b.expected)) [
      | inl last ↦
          let all : b.waiters ≡ b.expected = ground (arith, inv.bounded, counted, last) in
          let b' = record b { cond_cycle = suc b.cond_cycle; cyclic = false } in
          rw (last, inv.once)
            (changed n b b' (between w c) passed before after inv refl (sym inv.once) inv.bounded
              refl (λ u. IsCounted-full b b' u refl all) all)
      | inr early ↦ rw early (
          changed n b b (between w c) (waiting w c) before after inv refl refl inv.bounded refl
            (λ u h. h) other)
    ]

Step-IsSound : (n : ℕ) {s s' : System} → Step s s' → IsSound n s → IsSound n s'
Step-IsSound n (comes b b' t before after h) inv =
    let (room, e, e') = come_lem b b' t h in rw (e, e') (come-IsSound n b before after room inv)
Step-IsSound n (syncs b w c before after) inv = sync-IsSound n b w c before after inv
Step-IsSound n (goes_on b w c before after ne) inv =
    let other = at_step n b (waiting w c) before after inv in
    changed n b b (waiting w c) passed before after inv refl refl inv.bounded refl (λ u h. h)
      (other ne)

Reach-IsSound : (n : ℕ) {s s' : System} → IsSound n s → Reach s s' → IsSound n s'
Reach-IsSound n inv here = inv
Reach-IsSound n inv (next r st) = Step-IsSound n st (Reach-IsSound n inv r)

away-IsSound :
    (b : Barrier) (k : ℕ) → (came (replicate k away) ≡ 0) × All (IsCounted b) (replicate k away)
away-IsSound b zero = (refl, tt)
away-IsSound b (suc k) =
    let (none_came, each) = away-IsSound b k in (omega (arith, none_came), (tt, each))

pub barrier_cond_init_lem :
    (n : ℕ) (b : Barrier)
    → barrier_cond_init barrier_new n ≡ ret b
    → (b.waiters ≡ 0) × (b.expected ≡ n) × (b.cyclic ≡ false) × (b.type ≡ barrier_cond)
unfolding barrier_cond_init barrier_expect set_cond barrier_new
barrier_cond_init_lem n b h = (ground arith, ground arith, ground arith, ground arith)

-- A barrier that `barrier_cond` made for `n` threads and that is not cyclic, and any number of threads
-- that come to it: whenever one has passed, exactly `n` have come, in every order of the steps, if no
-- wake-up is spurious and neither vtc_stop nor vtc_error is set.
pub Reach-came :
    (n k : ℕ) (b : Barrier) (s : System) (before after : List Thread)
    → barrier_cond_init barrier_new n ≡ ret b
    → Reach (system b (replicate k away)) s
    → s.threads ≡ before ++ passed ∷ after
    → came s.threads ≡ n
Reach-came n k b s before after made steps one =
    let (none_yet, wanted, once, is_cond) = barrier_cond_init_lem n b made in
    let (none_came, each) = away-IsSound b k in
    let start : IsSound n (system b (replicate k away)) = record {
      wanted = wanted;
      once = once;
      counted = omega arith;
      bounded = omega arith;
      each = each;
    } in
    let inv = Reach-IsSound n start steps in
    let parts = All-split (IsCounted s.b) before passed after (rw one at inv.each) in
    omega (arith, inv.counted, inv.wanted, parts.1)
