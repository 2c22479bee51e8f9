-- ===== src/Dht/Sets.antt =====
-- The ordered sets of lib/dht/datakey.cpp and datastring.cpp.

use arbore_experiment.Base.{◌≡◌, refl, ap, Bool, true, false, List, [], ◌∷◌, ◌++◌, All}
use arbore_experiment.Dht.{insert}

module _ {ℓ} {A : Type ℓ} (before : A → A → Bool) where
  -- Every element stands before all that follow it.
  abbrev pub IsOrdered : List A → Type 0
  IsOrdered [] = Unit {0}
  IsOrdered (x ∷ xs) = All (λ y. before x y ≡ true) xs × IsOrdered xs

  -- The elements before the new one.
  IsOrdered-head :
      (xs : List A) (x : A) (ys : List A)
      → IsOrdered (xs ++ x ∷ ys)
      → All (λ y. before y x ≡ true) xs
  IsOrdered-head [] x ys h = tt
  IsOrdered-head (z ∷ xs) x ys h = (here xs h.0, IsOrdered-head xs x ys h.1)
    where
      here : (l : List A) → All (λ y. before z y ≡ true) (l ++ x ∷ ys) → before z x ≡ true
      here [] a = a.0
      here (w ∷ l) a = here l a.1

  insert_last :
      (x : A) (xs : List A)
      → ((y : A) → before y x ≡ true → before x y ≡ false)
      → All (λ y. before y x ≡ true) xs
      → insert before x xs ≡ xs ++ x ∷ []
  unfolding insert
  insert_last x [] asym h = refl
  insert_last x (y ∷ ys) asym h = rw (asym y h.0, h.0) (ap (◌∷◌ y) (insert_last x ys asym h.1))

  pub insert_next :
      (xs : List A) (x : A) (ys : List A)
      → ((y : A) → before y x ≡ true → before x y ≡ false)
      → IsOrdered (xs ++ x ∷ ys)
      → insert before x xs ≡ xs ++ x ∷ []
  insert_next xs x ys asym h = insert_last x xs asym (IsOrdered-head xs x ys h)
