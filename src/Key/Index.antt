-- ===== src/Key/Index.antt =====
-- key_index of lib/util/key.cpp: how far two printed keys agree.
use native.Mathlib.Nat.{pow-suc, mod-lt, mod-add-div, one-le-pow, div-lt_iff_lt-mul, mul_comm}
use arbore_experiment.Base.{
  ℕ, zero, suc, ◌+◌, ◌*◌, ◌/◌, ◌%◌, ◌^◌, ◌≤◌, ◌<◌, ◌≡◌, refl, sym, ap, ◌∙◌, ◌↔◌, ◌⊎◌, ◌≢◌, List, [],
  ◌∷◌, ◌++◌, arith, length, get_or,
}
use arbore_experiment.Key.{Key, IsKey, get_str, hex_digits, same_prefix, key_index}
use arbore_experiment.Key.Order.{value}
use arbore_experiment.Key.Distance.{value-le_max}
use arbore_experiment.Key.Hex.{
  hex_split, length-hex_digits, hex_digits-injective, get_str-value, length-get_str,
}

same_prefix_le : (m : ℕ) (xs ys : List ℕ) → same_prefix m xs ys ≤ m
unfolding same_prefix
same_prefix_le (suc m) (x ∷ xs) (y ∷ ys) = ground (arith, same_prefix_le m xs ys)
same_prefix_le _ _ _ = omega arith

same_prefix_comm : (m : ℕ) (xs ys : List ℕ) → same_prefix m xs ys ≡ same_prefix m ys xs
unfolding same_prefix
same_prefix_comm zero xs ys = refl
same_prefix_comm (suc m) [] [] = refl
same_prefix_comm (suc m) [] (y ∷ ys) = refl
same_prefix_comm (suc m) (x ∷ xs) [] = refl
same_prefix_comm (suc m) (x ∷ xs) (y ∷ ys) = ground (arith, same_prefix_comm m xs ys)

-- Below the index the characters agree.
same_prefix_agree :
    (m : ℕ) (xs ys : List ℕ) (j : ℕ) → j < same_prefix m xs ys → get_or xs j 0 ≡ get_or ys j 0
unfolding same_prefix
same_prefix_agree (suc m) (x ∷ xs) (y ∷ ys) zero h = ground arith
same_prefix_agree (suc m) (x ∷ xs) (y ∷ ys) (suc j) h = ground (arith, same_prefix_agree m xs ys j)
same_prefix_agree _ _ _ j h = absurd (omega arith)

-- At the index they differ, unless it is the bound.
same_prefix_differ :
    (m : ℕ) (xs ys : List ℕ)
    → same_prefix m xs ys < m
    → m ≤ length xs
    → m ≤ length ys
    → get_or xs (same_prefix m xs ys) 0 ≢ get_or ys (same_prefix m xs ys) 0
unfolding same_prefix
same_prefix_differ zero xs ys h lx ly = absurd (omega arith)
same_prefix_differ (suc m) [] ys h lx ly = absurd (omega arith)
same_prefix_differ (suc m) (x ∷ xs) [] h lx ly = absurd (omega arith)
same_prefix_differ (suc m) (x ∷ xs) (y ∷ ys) h lx ly = ground (arith, same_prefix_differ m xs ys)

-- Two strings agree on their first parts exactly if the index is not inside these.
same_prefix_append :
    (m : ℕ) (xs ys xs' ys' : List ℕ)
    → length xs ≡ length ys
    → length xs ≤ m
    → (length xs ≤ same_prefix m (xs ++ xs') (ys ++ ys')) ↔ (xs ≡ ys)
unfolding same_prefix
same_prefix_append m [] [] xs' ys' e h = ground arith
same_prefix_append m [] (y ∷ ys) xs' ys' e h = absurd (omega arith)
same_prefix_append m (x ∷ xs) [] xs' ys' e h = absurd (omega arith)
same_prefix_append zero (x ∷ xs) (y ∷ ys) xs' ys' e h = absurd (omega arith)
same_prefix_append (suc m) (x ∷ xs) (y ∷ ys) xs' ys' e h =
    ground (arith, same_prefix_append m xs ys xs' ys' (omega arith) (omega arith))

-- The index before it is clamped to the last row.
raw_index : Key → Key → ℕ
raw_index a b = same_prefix 40 (get_str a) (get_str b)

raw_index_bounds : (a b : Key) → (2 ≤ raw_index a b) × (raw_index a b ≤ 40)
unfolding raw_index
raw_index_bounds a b = (begins, same_prefix_le 40 (get_str a) (get_str b))
  where
    begins : 2 ≤ same_prefix 40 (get_str a) (get_str b)
    begins = unfold get_str same_prefix in omega arith

key_index_raw :
    (a b : Key)
    → ((raw_index a b ≤ 39) × (key_index a b ≡ raw_index a b))
      ⊎ ((raw_index a b ≡ 40) × (key_index a b ≡ 39))
unfolding key_index raw_index
key_index_raw a b = ground (arith, same_prefix_le 40 (get_str a) (get_str b))

-- Both strings begin with "0x", so the index is at least 2; it is always that of a row.
pub key_index_bounds : (a b : Key) → (2 ≤ key_index a b) × (key_index a b ≤ 39)
key_index_bounds a b = ground (arith, raw_index_bounds a b, key_index_raw a b)

key_index_comm : (a b : Key) → key_index a b ≡ key_index b a
unfolding key_index
key_index_comm a b = rw (same_prefix_comm 40 (get_str a) (get_str b)) refl

pub key_index_agree :
    (a b : Key) (j : ℕ) → j < key_index a b → get_or (get_str a) j 0 ≡ get_or (get_str b) j 0
unfolding raw_index
key_index_agree a b j h =
    same_prefix_agree 40 (get_str a) (get_str b) j (omega (arith, key_index_raw a b))

pub key_index_differ :
    (a b : Key)
    → key_index a b < 39
    → get_or (get_str a) (key_index a b) 0 ≢ get_or (get_str b) (key_index a b) 0
unfolding raw_index
key_index_differ a b h =
    let e : key_index a b ≡ raw_index a b = omega (arith, key_index_raw a b) in
    rw e (
      same_prefix_differ 40 (get_str a) (get_str b) (omega (arith, key_index_raw a b))
        (omega (arith, length-get_str a)) (omega (arith, length-get_str b)))

pow-add : (d n k : ℕ) → k ≡ d + n → 16 ^ k ≡ 16 ^ d * 16 ^ n
pow-add d zero k e = let e' : k ≡ d = omega arith in rw e' (omega arith)
pow-add d (suc n) zero e = absurd (omega arith)
pow-add d (suc n) (suc k) e =
    let ih = ap (λ (t : ℕ). t * 16) (pow-add d n k (omega arith)) in
    rw (pow-suc 16 k, pow-suc 16 n) (omega (arith, ih))

-- "0x" and the first n digits, below which d digits are left.
printed : Key → ℕ → ℕ → List ℕ
printed a n d = b'0' ∷ b'x' ∷ hex_digits n (value a / 16 ^ d)

get_str_cut :
    (a : Key) (n d : ℕ)
    → IsKey a
    → 40 ≡ d + n
    → get_str a ≡ printed a n d ++ hex_digits d (value a % 16 ^ d)
unfolding printed
get_str_cut a n d h e =
    let cut =
      hex_split d n 40 (value a / 16 ^ d) (value a % 16 ^ d) (16 ^ d) e refl
        (mod-lt (value a) (one-le-pow d 16 (omega arith))) in
    let whole = rw (mod-add-div (value a) (16 ^ d)) at cut in
    get_str-value a h ∙ ap (λ (t : List ℕ). b'0' ∷ b'x' ∷ t) whole

raw_index_cut :
    (a b : Key) (n d : ℕ)
    → IsKey a
    → IsKey b
    → 40 ≡ d + n
    → n ≤ 38
    → (n + 2 ≤ raw_index a b) ↔ (printed a n d ≡ printed b n d)
unfolding raw_index
raw_index_cut a b n d ha hb e hn =
    rw (get_str_cut a n d ha e, get_str_cut b n d hb e, ← length-printed a)
      (same_prefix_append 40 (printed a n d) (printed b n d) _ _
        (length-printed a ∙ sym (length-printed b)) (omega (arith, length-printed a)))
  where
    length-printed : (k : Key) → length (printed k n d) ≡ n + 2
    length-printed k = unfold printed in omega (arith, length-hex_digits n (value k / 16 ^ d))

value_high-lt : (a : Key) (n d : ℕ) → IsKey a → 40 ≡ d + n → value a / 16 ^ d < 16 ^ n
value_high-lt a n d h e =
    (div-lt_iff_lt-mul (one-le-pow d 16 (omega arith))).1
      (omega (arith, value-le_max a h, pow-add d n 40 e, mul_comm (16 ^ d) (16 ^ n)))

printed-injective :
    (a b : Key) (n d : ℕ)
    → IsKey a
    → IsKey b
    → 40 ≡ d + n
    → (printed a n d ≡ printed b n d) ↔ (value a / 16 ^ d ≡ value b / 16 ^ d)
unfolding printed
printed-injective a b n d ha hb e = (
  (λ h.
      hex_digits-injective n (value a / 16 ^ d) (value b / 16 ^ d) (16 ^ n) refl
        (value_high-lt a n d ha e) (value_high-lt b n d hb e) (cc)),
  (λ h. cc),
)

-- For keys of five words and n at most 37, with d the 40 - n other digits: key_index is at least n
-- + 2 exactly if the keys agree as numbers in their n highest hexadecimal digits.
pub key_index-value :
    (a b : Key) (n d : ℕ)
    → IsKey a
    → IsKey b
    → n ≤ 37
    → 40 ≡ d + n
    → (n + 2 ≤ key_index a b) ↔ (value a / 16 ^ d ≡ value b / 16 ^ d)
key_index-value a b n d ha hb hn e =
    let cut = raw_index_cut a b n d ha hb e (omega arith) in
    let same = printed-injective a b n d ha hb e in
    (
      (λ h. same.0 (cut.0 (omega (arith, key_index_raw a b)))),
      (λ h. let long = cut.1 (same.1 h) in omega (arith, key_index_raw a b, long)),
    )
