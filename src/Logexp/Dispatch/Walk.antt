-- ===== src/Logexp/Dispatch/Walk.antt =====
-- The walk over the tests of an expectation on a log (src/vtc_logexp.c): where it may stop.
use vtest.Base.{◌≡◌, ◌≢◌, refl, inl, inr, List, [], ◌∷◌, ◌++◌, Returns, arith, All, Bool-cases}
use vtest.Base.Every.{All-snoc}
use vtest.Logexp.{
  logexp_clean, clean_test, Skip, upto, any, alt, seen, fail, clear, abort, Test, Logexp, land,
  next_from, is_alt,
}

abbrev pub NoAbort : Test → Type 0
NoAbort t = t.skip_max ≢ abort

abbrev pub IsFail : Test → Type 0
IsFail t = t.skip_max ≡ fail

-- The walk has stopped at a test that waits for a record.
abbrev pub Waits : Skip → Type 0
Waits (upto n) = Unit {0}
Waits any = Unit {0}
Waits alt = Unit {0}
Waits _ = ⊥

abbrev pub FirstWaits : List Test → Type 0
FirstWaits [] = Unit {0}
FirstWaits (t ∷ ts) = Waits t.skip_max

-- The tests that must not match are those of `fail add`; the current test waits; no `abort` follows.
pub record IsSound (le : Logexp) : Type 0 where
  pub fails : All IsFail le.failing
  pub first : FirstWaits le.ahead
  pub runs : All NoAbort le.ahead

abbrev pub Landed : Logexp → Logexp → Type 0
Landed le le' = IsSound le' × (le'.skip_cnt ≡ le.skip_cnt)

land_test-IsSound :
    (s : Skip) (before ts failing : List Test) (t : Test) (le : Logexp)
    → t.skip_max ≡ s
    → All IsFail failing
    → NoAbort t
    → All NoAbort ts
    → ((b f : List Test) → All IsFail f → Returns (Landed le) (land b ts f le))
    → Returns (Landed le) (land before (t ∷ ts) failing le)
unfolding land
land_test-IsSound (upto n) before ts failing t le e h k ks again =
    rw e (record { fails = h; first = rw e tt; runs = (k, ks) }, refl)
land_test-IsSound any before ts failing t le e h k ks again =
    rw e (record { fails = h; first = rw e tt; runs = (k, ks) }, refl)
land_test-IsSound alt before ts failing t le e h k ks again =
    rw e (record { fails = h; first = rw e tt; runs = (k, ks) }, refl)
land_test-IsSound seen before ts failing t le e h k ks again =
    rw e (again (before ++ t ∷ []) failing h)
land_test-IsSound fail before ts failing t le e h k ks again =
    rw e (again (before ++ t ∷ []) (failing ++ t ∷ []) (All-snoc IsFail failing t h e))
land_test-IsSound clear before ts failing t le e h k ks again =
    rw e (again (before ++ t ∷ []) [] tt)
land_test-IsSound abort before ts failing t le e h k ks again = absurd (k e)

land-IsSound :
    (before ts failing : List Test) (le : Logexp)
    → All IsFail failing
    → All NoAbort ts
    → Returns (Landed le) (land before ts failing le)
unfolding land
land-IsSound before [] failing le h k = (record { fails = h; first = tt; runs = tt }, refl)
land-IsSound before (t ∷ ts) failing le h (k, ks) =
    land_test-IsSound t.skip_max before ts failing t le refl h k ks
      (λ b f hf. land-IsSound b ts f le hf ks)

pub next_from-IsSound :
    (t : Test) (ts : List Test) (le : Logexp)
    → All IsFail le.failing
    → All NoAbort (t ∷ ts)
    → Returns (Landed le) (next_from (t ∷ ts) le)
unfolding next_from
next_from-IsSound t ts le h k = elim (Bool-cases (is_alt t.skip_max)) [
  | inl e ↦ rw e (land-IsSound le.before (t ∷ ts) le.failing le h k)
  | inr e ↦ rw e (land-IsSound (le.before ++ t ∷ []) ts le.failing le h k.1)
]

clean_test-NoAbort : (t : Test) → NoAbort t → NoAbort (clean_test t)
unfolding clean_test
clean_test-NoAbort t h = ground arith

clean-NoAbort : (ts : List Test) → All NoAbort ts → All NoAbort (logexp_clean ts)
unfolding logexp_clean
clean-NoAbort [] h = tt
clean-NoAbort (t ∷ ts) (h, hs) = (clean_test-NoAbort t h, clean-NoAbort ts hs)

-- A start over tests without `abort` comes to a state of this kind.
pub start-IsSound : (le : Logexp) → All NoAbort le.before → Returns (Landed le) (next_from [] le)
unfolding next_from
start-IsSound le h = land-IsSound [] (logexp_clean le.before) [] le tt (clean-NoAbort le.before h)
