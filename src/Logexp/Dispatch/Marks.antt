-- ===== src/Logexp/Dispatch/Marks.antt =====
-- The tests of a block of alternatives, and which of them a record takes (src/vtc_logexp.c).
use vtest.Base.{
  ℕ, ◌≡◌, refl, List, [], ◌∷◌, ◌++◌, Bool, true, false, ◌&&◌, ◌==◌, if◌then◌else◌, Option, none,
  some, Bool-cases, inl, inr,
}
use mathlib.Core.Option.{some_inj}
use vtest.Logexp.{
  Skip, alt, seen, Want, number, anything, last, Test, Rec, Vsl, Logexp, lem_ok, wanted, vre_ok,
  matched, behind, match_alt,
}

-- What a test asks of a record by itself, where it does not ask for what was last
abbrev fits : Want → ℕ → Bool
fits anything n = true
fits (number m) n = m == n
fits last n = false

abbrev pub accepts : Vsl → Test → Rec → Bool
accepts v t r = fits t.vxid r.vxid && fits t.tag r.tag && vre_ok v t r

abbrev IsGiven : Want → Type 0
IsGiven anything = Unit {0}
IsGiven (number m) = Unit {0}
IsGiven last = ⊥

abbrev pub IsFixed : Test → Type 0
IsFixed t = IsGiven t.vxid × IsGiven t.tag

-- A test marked `?`, and one that a record has matched
abbrev pub alternative : Test → Test
alternative t = record t { skip_max = alt }

abbrev pub taken : Test → Test
taken t = record t { skip_max = seen }

-- Tests, each with whether a record has matched it
abbrev shown : Bool × Test → Test
shown (true, t) = taken t
shown (false, t) = alternative t

abbrev pub shows : List (Bool × Test) → List Test
shows [] = []
shows (m ∷ ms) = shown m ∷ shows ms

abbrev put {ℓ} : {A : Type ℓ} → A → Option (List A) → Option (List A)
put a none = none
put a (some rest) = some (a ∷ rest)

pub put-inv {ℓ} :
    {A : Type ℓ} (a : A) (o : Option (List A)) {bs : List A}
    → put a o ≡ some bs
    → (rest : List A) × (o ≡ some rest) × (bs ≡ a ∷ rest)
put-inv a none e = cc
put-inv a (some rest) e = (rest, refl, cc)

-- The first test that no record has matched and that the record matches is marked.
abbrev pub mark : Vsl → Rec → List (Bool × Test) → Option (List (Bool × Test))
mark v r [] = none
mark v r ((true, t) ∷ ms) = put (true, t) (mark v r ms)
mark v r ((false, t) ∷ ms) =
    let later = put (false, t) (mark v r ms) in
    if accepts v t r then some ((true, t) ∷ ms) else later

wanted-fits : (w : Want) (o : Option ℕ) (n : ℕ) → IsGiven w → wanted w o n ≡ fits w n
unfolding wanted
wanted-fits anything o n h = refl
wanted-fits (number m) o n h = refl
wanted-fits last o n h = absurd h

matched-accepts :
    (v : Vsl) (le : Logexp) (t : Test) (s : Skip) (r : Rec)
    → IsFixed t
    → matched v le (record t { skip_max = s }) r ≡ accepts v t r
unfolding matched vre_ok
matched-accepts v le t s r (h, k) =
    rw (wanted-fits t.vxid le.vxid_last r.vxid h, wanted-fits t.tag le.tag_last r.tag k)

abbrev pub Fixed : List (Bool × Test) → Type 0
Fixed [] = Unit {0}
Fixed ((b, t) ∷ ms) = IsFixed t × Fixed ms

pub match_alt-mark :
    (v : Vsl) (le : Logexp) (ms : List (Bool × Test)) {ms' : List (Bool × Test)} (after : List Test)
    (r : Rec)
    → Fixed ms
    → mark v r ms ≡ some ms'
    → match_alt v le (shows ms ++ after) r ≡ (lem_ok, shows ms' ++ after)
unfolding match_alt behind
match_alt-mark v le [] after r h e = cc
match_alt-mark v le ((true, t) ∷ ms) after r (h, hs) e =
    let (ms', e', same) = put-inv (true, t) (mark v r ms) e in
    rw (same, match_alt-mark v le ms after r hs e')
match_alt-mark v le ((false, t) ∷ ms) after r (h, hs) e = elim (Bool-cases (accepts v t r)) [
  | inl hit ↦
      let same = some_inj.0 (rw hit at e) in rw (matched-accepts v le t alt r h, hit, ← same)
  | inr miss ↦
      let (ms', e', same) = put-inv (false, t) (mark v r ms) (rw miss at e) in
      rw (matched-accepts v le t alt r h, miss, same, match_alt-mark v le ms after r hs e')
]

-- The tests of the block that no record has matched, and what the records leave of them
abbrev pub outstanding : List (Bool × Test) → List Test
outstanding [] = []
outstanding ((true, t) ∷ ms) = outstanding ms
outstanding ((false, t) ∷ ms) = t ∷ outstanding ms

abbrev pub pick : Vsl → Rec → List Test → Option (List Test)
pick v r [] = none
pick v r (t ∷ ts) = let later = put t (pick v r ts) in if accepts v t r then some ts else later

pub mark-pick :
    (v : Vsl) (r : Rec) (ms : List (Bool × Test)) {ts : List Test}
    → pick v r (outstanding ms) ≡ some ts
    → (ms' : List (Bool × Test)) × (mark v r ms ≡ some ms') × (outstanding ms' ≡ ts)
mark-pick v r [] e = cc
mark-pick v r ((true, t) ∷ ms) e =
    let (ms', e', same) = mark-pick v r ms e in ((true, t) ∷ ms', rw e', same)
mark-pick v r ((false, t) ∷ ms) e = elim (Bool-cases (accepts v t r)) [
  | inl hit ↦ ((true, t) ∷ ms, rw hit, some_inj.0 (rw hit at e))
  | inr miss ↦
      let (ts', e', same) = put-inv t (pick v r (outstanding ms)) (rw miss at e) in
      let (ms', e'', same') = mark-pick v r ms e' in
      ((false, t) ∷ ms', rw (miss, e''), rw (same, same'))
]

-- Each record, in order, takes the first outstanding test that it matches.
abbrev pub pick_all : Vsl → List Rec → List Test → Option (List Test)
pick_all v [] ts = some ts
pick_all v (r ∷ rs) ts = elim (pick v r ts) [ none ↦ none | some ts' ↦ pick_all v rs ts' ]

abbrev pub takens : List (Bool × Test) → List Test
takens [] = []
takens ((b, t) ∷ ms) = taken t ∷ takens ms

pub mark-takens :
    (v : Vsl) (r : Rec) (ms : List (Bool × Test)) {ms' : List (Bool × Test)}
    → Fixed ms
    → mark v r ms ≡ some ms'
    → Fixed ms' × (takens ms' ≡ takens ms)
mark-takens v r [] h e = cc
mark-takens v r ((true, t) ∷ ms) (h, hs) e =
    let (rest, e', same) = put-inv (true, t) (mark v r ms) e in
    let (k, ks) = mark-takens v r ms hs e' in rw (same, ks) ((h, k), refl)
mark-takens v r ((false, t) ∷ ms) (h, hs) e = elim (Bool-cases (accepts v t r)) [
  | inl hit ↦ rw (← some_inj.0 (rw hit at e)) ((h, hs), refl)
  | inr miss ↦
      let (rest, e', same) = put-inv (false, t) (mark v r ms) (rw miss at e) in
      let (k, ks) = mark-takens v r ms hs e' in rw (same, ks) ((h, k), refl)
]
