-- ===== src/Key/Distance.antt =====
-- Subtraction of keys, their distance on the ring, and the test `between` (lib/util/key.cpp).
use arbore_experiment.Base.{
  ℕ, ◌+◌, ◌-◌, ◌^◌, ◌≤◌, ◌<◌, ◌≡◌, refl, ap, ◌↔◌, ◌⊎◌, inl, inr, false, [], ◌∷◌, arith,
  if◌then◌else◌, length, Bool-cases,
}
use native.Mathlib.Nat.{pow-suc}
use arbore_experiment.Key.{
  Key, IsKey, word_mod, key_max, key_half, zero_key, gt, lt, sub_loop, sub, distance, between,
}
use arbore_experiment.Key.Order.{value, Words, gt_iff, lt_iff, value-injective}

sub_loop-Words : (c : ℕ) (a b : Key) → c ≤ 1 → Words a → Words b → Words (sub_loop c a b)
unfolding sub_loop
sub_loop-Words c [] b hc ha hb = tt
sub_loop-Words c (x ∷ xs) [] hc ha hb = tt
sub_loop-Words c (x ∷ xs) (y ∷ ys) hc ha hb = ground (
  arith,
  sub_loop-Words 0 xs ys (omega arith) ha.1 hb.1,
  sub_loop-Words 1 xs ys (omega arith) ha.1 hb.1,
)

length-sub_loop : (c : ℕ) (a b : Key) → length a ≡ length b → length (sub_loop c a b) ≡ length a
unfolding sub_loop
length-sub_loop c [] b e = refl
length-sub_loop c (x ∷ xs) [] e = absurd (omega arith)
length-sub_loop c (x ∷ xs) (y ∷ ys) e =
    ground (arith, length-sub_loop 0 xs ys (omega arith), length-sub_loop 1 xs ys (omega arith))

-- The carries make up the difference of the numbers.
value-sub_loop :
    (c : ℕ) (a b : Key)
    → c ≤ 1
    → length a ≡ length b
    → Words a
    → Words b
    → value b + c ≤ value a
    → value (sub_loop c a b) + value b + c ≡ value a
unfolding sub_loop value
value-sub_loop c [] [] hc e ha hb h = omega arith
value-sub_loop c [] (y ∷ ys) hc e ha hb h = absurd (omega arith)
value-sub_loop c (x ∷ xs) [] hc e ha hb h = absurd (omega arith)
value-sub_loop c (x ∷ xs) (y ∷ ys) hc e ha hb h = ground (
  arith,
  value-sub_loop 0 xs ys (omega arith) (omega arith) ha.1 hb.1,
  value-sub_loop 1 xs ys (omega arith) (omega arith) ha.1 hb.1,
)

pub zero_key-IsKey : IsKey zero_key
zero_key-IsKey = omega arith

key_max-IsKey : IsKey key_max
key_max-IsKey = omega arith

key_half-IsKey : IsKey key_half
key_half-IsKey = omega arith

not_lt : (a b : Key) → IsKey a → IsKey b → value b ≤ value a → lt a b ≡ false
not_lt a b ha hb h = ground (arith, lt_iff a b ha hb)

sub_not_refused : (a b : Key) → IsKey a → IsKey b → value b ≤ value a → sub a b ≡ sub_loop 0 a b
unfolding sub
sub_not_refused a b ha hb h = rw (not_lt a b ha hb h)

sub-IsKey : (a b : Key) → IsKey a → IsKey b → IsKey (sub a b)
unfolding sub
sub-IsKey a b ha hb = elim (Bool-cases (lt a b)) [
  | inl refused ↦ rw refused zero_key-IsKey
  | inr fine ↦ rw fine (record {
    sized = omega (arith, length-sub_loop 0 a b, ha.sized, hb.sized);
    words = sub_loop-Words 0 a b (omega arith) ha.words hb.words;
  })
]

-- A subtraction that is not refused is exact.
value-sub :
    (a b : Key) → IsKey a → IsKey b → value b ≤ value a → value (sub a b) + value b ≡ value a
value-sub a b ha hb h =
    let loop =
      value-sub_loop 0 a b (omega arith) (omega (arith, ha.sized, hb.sized)) ha.words hb.words
        (omega arith) in
    rw (sub_not_refused a b ha hb h) (omega (arith, loop))

-- |a - b|, as a key.
diff : Key → Key → Key
diff a b = if gt a b then sub a b else sub b a

diff-IsKey : (a b : Key) → IsKey a → IsKey b → IsKey (diff a b)
unfolding diff
diff-IsKey a b ha hb = ground (arith, sub-IsKey a b ha hb, sub-IsKey b a hb ha)

value-diff :
    (a b : Key)
    → IsKey a
    → IsKey b
    → (value (diff a b) + value b ≡ value a) ⊎ (value (diff a b) + value a ≡ value b)
unfolding diff
value-diff a b ha hb = ground (arith, gt_iff a b ha hb, value-sub a b ha hb, value-sub b a hb ha)

abbrev pub max_value : ℕ
max_value = 2 ^ 160 - 1

abbrev pub half_value : ℕ
half_value = 2 ^ 159 - 1

value-key_max : value key_max ≡ max_value
unfolding value
value-key_max = refl

value-key_half : value key_half ≡ half_value
unfolding value
value-key_half = refl

value-Words-le : (a : Key) → Words a → value a + 1 ≤ word_mod ^ length a
unfolding value
value-Words-le [] h = omega arith
value-Words-le (x ∷ xs) h = grind (arith, value-Words-le xs h.1, pow-suc word_mod (length xs))

pub value-le_max : (a : Key) → IsKey a → value a ≤ max_value
value-le_max a h = let e = value-Words-le a h.words in let e' = rw h.sized at e in omega (arith, e')

-- The distance that the code computes, in numbers: 2 ^ 160 - 1 less the difference, where that
-- difference is above the half of the ring.
abbrev pub RingDistance : ℕ → ℕ → ℕ → Type 0
RingDistance a b d =
    let far = (a - b) + (b - a) in
    ((far ≤ half_value) × (d ≡ far)) ⊎ ((half_value < far) × (d + far ≡ max_value))

-- The last step of `distance`.
fold : Key → Key
fold d = if gt d key_half then sub key_max d else d

distance-fold : (a b : Key) → distance a b ≡ fold (diff a b)
unfolding distance fold diff
distance-fold a b = refl

fold-IsKey : (d : Key) → IsKey d → IsKey (fold d)
unfolding fold
fold-IsKey d h = ground (arith, sub-IsKey key_max d key_max-IsKey h)

value-fold :
    (d : Key)
    → IsKey d
    → ((value d ≤ half_value) × (value (fold d) ≡ value d))
      ⊎ ((half_value < value d) × (value (fold d) + value d ≡ max_value))
unfolding fold
value-fold d h = ground (
  arith,
  gt_iff d key_half h key_half-IsKey,
  value-sub key_max d key_max-IsKey h,
  value-key_max,
  value-key_half,
  value-le_max d h,
)

-- The distance of two keys is a key.
pub distance-IsKey : (a b : Key) → IsKey a → IsKey b → IsKey (distance a b)
distance-IsKey a b ha hb = rw (distance-fold a b) (fold-IsKey (diff a b) (diff-IsKey a b ha hb))

-- For keys of five words, the distance is the absolute difference of their numbers if that is at
-- most half of the largest key, and the largest key less that difference otherwise.
pub value-distance :
    (a b : Key) → IsKey a → IsKey b → RingDistance (value a) (value b) (value (distance a b))
value-distance a b ha hb =
    rw (distance-fold a b)
      (ground (arith, value-diff a b ha hb, value-fold (diff a b) (diff-IsKey a b ha hb)))

distance_comm : (a b : Key) → IsKey a → IsKey b → distance a b ≡ distance b a
distance_comm a b ha hb =
    value-injective (distance a b) (distance b a) (distance-IsKey a b ha hb)
      (distance-IsKey b a hb ha) (omega (arith, value-distance a b ha hb, value-distance b a hb ha))

distance-le_half : (a b : Key) → IsKey a → IsKey b → value (distance a b) ≤ half_value
distance-le_half a b ha hb =
    omega (arith, value-distance a b ha hb, value-le_max a ha, value-le_max b hb)

-- Two keys at the two ends of the key space, 0 and 2 ^ 160 - 1.
abbrev pub Ends : Key → Key → Type 0
Ends a b = (value a ≡ 0) × (value b ≡ max_value)

-- For keys of five words, the distance is zero exactly if the keys are equal or one is the least
-- and the other the largest key.
pub distance-eq-zero_iff :
    (a b : Key) → IsKey a → IsKey b → (value (distance a b) ≡ 0) ↔ ((a ≡ b) ⊎ (Ends a b ⊎ Ends b a))
distance-eq-zero_iff a b ha hb = (
  (λ z. ground (
    arith,
    value-distance a b ha hb,
    value-le_max a ha,
    value-le_max b hb,
    value-injective a b ha hb,
  )),
  (λ o. elim o [
    | inl e ↦ omega (arith, value-distance a b ha hb, ap value e)
    | inr (inl h) ↦ omega (arith, value-distance a b ha hb, h.0, h.1)
    | inr (inr h) ↦ omega (arith, value-distance a b ha hb, h.0, h.1)
  ]),
)

-- For keys of five words, `between` is false exactly of a key that lies strictly between left and
-- right.
pub between_iff :
    (k left right : Key)
    → IsKey k
    → IsKey left
    → IsKey right
    → (between k left right ≡ false) ↔ ((value left < value k) × (value k < value right))
unfolding between
between_iff k left right hk hl hr =
    ground (arith, lt_iff left right hl hr, lt_iff left k hl hk, lt_iff k right hk hr)
