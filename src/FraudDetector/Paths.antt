-- ===== src/FraudDetector/Paths.antt =====
-- What the search pushes before a recursive call, it pops after it.
use concurrent_banking_syste.Prelude.{◌≡◌, refl, some, false, List, [], ◌∷◌, ◌++◌, arith}
use concurrent_banking_syste.Prelude.Int.{ℤ}
use concurrent_banking_syste.FraudDetector.{holds, erase, back, pop_back}

pub back-snoc : {A : Type 0} (xs : List A) (x : A) → back (xs ++ x ∷ []) ≡ some x
back-snoc [] x = refl
back-snoc (y ∷ ys) x = rw (back-snoc ys x)

pub pop_back-snoc : {A : Type 0} (xs : List A) (x : A) → pop_back (xs ++ x ∷ []) ≡ xs
pop_back-snoc [] x = refl
pop_back-snoc (y ∷ []) x = refl
pop_back-snoc (y ∷ z ∷ zs) x = rw (pop_back-snoc (z ∷ zs) x)

pub erase-absent : (x : ℤ) (xs : List ℤ) → holds x xs ≡ false → erase x xs ≡ xs
erase-absent x [] h = refl
erase-absent x (y ∷ ys) h = ground (arith, erase-absent x ys)
