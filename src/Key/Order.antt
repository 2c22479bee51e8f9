-- ===== src/Key/Order.antt =====
-- The comparisons of keys (lib/util/key.cpp) against the numbers that keys stand for.
use arbore_experiment.Base.{
  not, ℕ, ◌+◌, ◌*◌, ◌<◌, ◌≡◌, refl, ap, ◌↔◌, Bool, true, false, Option, none, some, [], ◌∷◌, arith,
  length, All,
}
use arbore_experiment.Key.{Key, IsKey, word_mod, eq, gt_down, gt, lt_down, lt, after_loop}

-- The number that the words stand for.
unfoldable pub value : Key → ℕ
value [] = 0
value (w ∷ ws) = w + word_mod * value ws

-- What the proofs need of a pair of keys: as many words, each in range.
abbrev pub Words : Key → Type 0
Words = All (λ w. w < word_mod)

-- What it means for the loop of operator> to end as it does.
abbrev Tells : Option Bool → Key → Key → Type 0
Tells none a b = value a ≡ value b
Tells (some true) a b = value b < value a
Tells (some false) a b = value a < value b

gt_down-Tells : (a b : Key) → length a ≡ length b → Words a → Words b → Tells (gt_down a b) a b
unfolding gt_down value
gt_down-Tells [] [] e ha hb = refl
gt_down-Tells [] (y ∷ ys) e ha hb = absurd (omega arith)
gt_down-Tells (x ∷ xs) [] e ha hb = absurd (omega arith)
gt_down-Tells (x ∷ xs) (y ∷ ys) e ha hb =
    ground (arith, gt_down-Tells xs ys (omega arith) ha.1 hb.1)

-- operator< is operator> with its sides exchanged.
lt_down-gt_down : (a b : Key) → lt_down a b ≡ gt_down b a
unfolding gt_down lt_down
lt_down-gt_down [] [] = refl
lt_down-gt_down [] (y ∷ ys) = refl
lt_down-gt_down (x ∷ xs) [] = refl
lt_down-gt_down (x ∷ xs) (y ∷ ys) = ground (arith, lt_down-gt_down xs ys)

lt-gt : (a b : Key) → lt a b ≡ gt b a
unfolding lt gt
lt-gt a b = ap after_loop (lt_down-gt_down a b)

-- For keys of five words, operator> is the order of the numbers that the words stand for.
pub gt_iff : (a b : Key) → IsKey a → IsKey b → (gt a b ≡ true) ↔ (value b < value a)
unfolding gt
gt_iff a b ha hb = ground (arith, gt_down-Tells a b (ground arith) ha.words hb.words)

pub lt_iff : (a b : Key) → IsKey a → IsKey b → (lt a b ≡ true) ↔ (value a < value b)
lt_iff a b ha hb = ground (arith, lt-gt a b, gt_iff b a hb ha)

-- Keys with the same number are the same words.
value-injective-Words :
    (a b : Key) → length a ≡ length b → Words a → Words b → value a ≡ value b → a ≡ b
unfolding value
value-injective-Words [] [] e ha hb h = refl
value-injective-Words [] (y ∷ ys) e ha hb h = absurd (omega arith)
value-injective-Words (x ∷ xs) [] e ha hb h = absurd (omega arith)
value-injective-Words (x ∷ xs) (y ∷ ys) e ha hb h =
    ground (arith, value-injective-Words xs ys (omega arith) ha.1 hb.1)

pub value-injective : (a b : Key) → IsKey a → IsKey b → value a ≡ value b → a ≡ b
value-injective a b ha hb =
    value-injective-Words a b (omega (arith, ha.sized, hb.sized)) ha.words hb.words

pub eq_iff : (a b : Key) → (eq a b ≡ true) ↔ (a ≡ b)
unfolding eq
eq_iff [] [] = ((λ _. refl), (λ _. refl))
eq_iff [] (y ∷ ys) = ground arith
eq_iff (x ∷ xs) [] = ground arith
eq_iff (x ∷ xs) (y ∷ ys) = ground (arith, eq_iff xs ys)

-- The answer of the loop with the keys exchanged.
abbrev opposite : Option Bool → Option Bool
opposite none = none
opposite (some r) = some (not r)

lt_down_swap : (a b : Key) → lt_down b a ≡ opposite (lt_down a b)
unfolding lt_down
lt_down_swap [] [] = refl
lt_down_swap [] (y ∷ ys) = refl
lt_down_swap (x ∷ xs) [] = refl
lt_down_swap (x ∷ xs) (y ∷ ys) = ground (arith, lt_down_swap xs ys)

pub lt_asymm : (a b : Key) → lt a b ≡ true → lt b a ≡ false
unfolding lt
lt_asymm a b h = ground (arith, lt_down_swap a b)
