-- ===== src/Base/Every.antt =====
-- Lemmas on a predicate of each item of a list.
use vtest.Base.{List, [], ◌∷◌, ◌++◌, All}

module _ {ℓ κ} {A : Type ℓ} (P : A → Type κ) where
  pub All-split :
      (xs : List A) (y : A) (ys : List A) → All P (xs ++ y ∷ ys) → All P xs × P y × All P ys
  All-split [] y ys h = (tt, h.0, h.1)
  All-split (x ∷ xs) y ys (h, hs) =
      let (before, at, after) = All-split xs y ys hs in ((h, before), at, after)

  pub All-append : (xs ys : List A) → All P xs → All P ys → All P (xs ++ ys)
  All-append [] ys h k = k
  All-append (x ∷ xs) ys (h, hs) k = (h, All-append xs ys hs k)

  pub All-join :
      (xs : List A) (y : A) (ys : List A) → All P xs → P y → All P ys → All P (xs ++ y ∷ ys)
  All-join xs y ys h k l = All-append xs (y ∷ ys) h (k, l)

  pub All-snoc : (xs : List A) (y : A) → All P xs → P y → All P (xs ++ y ∷ [])
  All-snoc xs y h k = All-append xs (y ∷ []) h (k, tt)
