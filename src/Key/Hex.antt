-- ===== src/Key/Hex.antt =====
-- The hexadecimal form of keys: GetStr of lib/util/key.cpp.
use mathlib.Core.List.{append_assoc, append-nil}
use native.Mathlib.Nat.{pow-suc}
use arbore_experiment.Base.{
  ℕ, zero, suc, ◌+◌, ◌*◌, ◌/◌, ◌%◌, ◌^◌, ◌≤◌, ◌<◌, ◌≡◌, refl, sym, ap, ◌∙◌, List, [], ◌∷◌, ◌++◌,
  arith, length, get_or, length-append, All,
}
use arbore_experiment.Key.{Key, IsKey, word_mod, hex_digit, hex_digits, get_str}
use arbore_experiment.Key.Order.{value, value-injective}
use arbore_experiment.Key.Distance.{value-le_max}

pub length-hex_digits : (n w : ℕ) → length (hex_digits n w) ≡ n
unfolding hex_digits
length-hex_digits zero w = refl
length-hex_digits (suc n) w = omega (
  arith,
  length-append (hex_digits n (w / 16)) (hex_digit (w % 16) ∷ []),
  length-hex_digits n (w / 16),
)

-- The digits of a number are those of its high part, and then those of its low part.
pub hex_split :
    (m n k u w p : ℕ)
    → k ≡ m + n
    → p ≡ 16 ^ m
    → w < p
    → hex_digits k (w + p * u) ≡ hex_digits n u ++ hex_digits m w
unfolding hex_digits
hex_split zero n k u w p ek ep h =
    let e : k ≡ n = omega arith in
    let e' : w + p * u ≡ u = omega (arith, ap (λ (t : ℕ). t * u) ep) in
    rw (e, e') (sym (append-nil _))
hex_split (suc m) n zero u w p ek ep h = absurd (omega arith)
hex_split (suc m) n (suc k) u w p ek ep h =
    let e : p ≡ 16 ^ m * 16 = ep ∙ pow-suc 16 m in
    let scaled = ap (λ (t : ℕ). t * u) e in
    let high : (w + p * u) / 16 ≡ w / 16 + 16 ^ m * u = omega (arith, scaled) in
    let low : (w + p * u) % 16 ≡ w % 16 = omega (arith, scaled) in
    rw (high, low, hex_split m n k u (w / 16) (16 ^ m) (omega arith) refl (omega (arith, e)))
      (append_assoc (hex_digits n u) (hex_digits m (w / 16)) _)

-- A word below the digits of a number: eight digits more.
hex_word :
    (n k u w : ℕ)
    → k ≡ 8 + n
    → w < word_mod
    → hex_digits k (w + word_mod * u) ≡ hex_digits n u ++ hex_digits 8 w
hex_word n k u w e h = hex_split 8 n k u w word_mod e refl h

-- For a key of five words, GetStr is 0x and then the 40 hexadecimal digits of the number that the
-- words stand for.
pub get_str-value : (k : Key) → IsKey k → get_str k ≡ b'0' ∷ b'x' ∷ hex_digits 40 (value k)
unfolding get_str value
get_str-value (a ∷ b ∷ c ∷ d ∷ e ∷ []) h =
    let w = h.words in
    let last : e + word_mod * 0 ≡ e = omega arith in
    rw
      (
        hex_word 32 40 (b + word_mod * (c + word_mod * (d + word_mod * (e + word_mod * 0)))) a refl
            w.0,
        hex_word 24 32 (c + word_mod * (d + word_mod * (e + word_mod * 0))) b refl w.1.0,
        hex_word 16 24 (d + word_mod * (e + word_mod * 0)) c refl w.1.1.0,
        hex_word 8 16 (e + word_mod * 0) d refl w.1.1.1.0,
        last,
      )
      (simp append_assoc)
get_str-value _ h = absurd (omega (arith, h.sized))

pub length-get_str : (k : Key) → length (get_str k) ≡ 42
unfolding get_str
length-get_str k = simp (length-append, length-hex_digits)

hex_digit-injective : (a b : ℕ) → a < 16 → b < 16 → hex_digit a ≡ hex_digit b → a ≡ b
unfolding hex_digit
hex_digit-injective a b ha hb h = ground arith

-- Lists that end in one element each.
snoc-injective : (xs ys : List ℕ) (x y : ℕ) → xs ++ x ∷ [] ≡ ys ++ y ∷ [] → (xs ≡ ys) × (x ≡ y)
snoc-injective [] [] x y h = (refl, ground arith)
snoc-injective [] (b ∷ []) x y h = absurd (ground arith)
snoc-injective [] (b ∷ b' ∷ ys) x y h = absurd (ground arith)
snoc-injective (a ∷ []) [] x y h = absurd (ground arith)
snoc-injective (a ∷ a' ∷ xs) [] x y h = absurd (ground arith)
snoc-injective (a ∷ xs) (b ∷ ys) x y h = ground (arith, snoc-injective xs ys x y)

pub hex_digits-injective :
    (n a b p : ℕ) → p ≡ 16 ^ n → a < p → b < p → hex_digits n a ≡ hex_digits n b → a ≡ b
unfolding hex_digits
hex_digits-injective zero a b p e ha hb h = omega arith
hex_digits-injective (suc n) a b p e ha hb h =
    let e' : p ≡ 16 ^ n * 16 = e ∙ pow-suc 16 n in
    let (high, low) = snoc-injective (hex_digits n (a / 16)) (hex_digits n (b / 16)) _ _ h in
    let low' = hex_digit-injective (a % 16) (b % 16) (omega arith) (omega arith) low in
    let high' =
      hex_digits-injective n (a / 16) (b / 16) (16 ^ n) refl (omega (arith, e')) (omega (arith, e'))
        high in
    omega (arith, low', high')

-- Keys of five words that print the same are the same.
pub get_str-injective : (a b : Key) → IsKey a → IsKey b → get_str a ≡ get_str b → a ≡ b
get_str-injective a b ha hb h =
    let h' : hex_digits 40 (value a) ≡ hex_digits 40 (value b) =
      ground (arith, get_str-value a ha, get_str-value b hb, h) in
    value-injective a b ha hb (
      hex_digits-injective 40 (value a) (value b) (2 ^ 160) refl (omega (arith, value-le_max a ha))
        (omega (arith, value-le_max b hb)) h')

-- A character that "%x" prints.
abbrev IsHexChar : ℕ → Type 0
IsHexChar c = (d : ℕ) × (d < 16) × (c ≡ hex_digit d)

All-append : (P : ℕ → Type 0) (xs ys : List ℕ) → All P xs → All P ys → All P (xs ++ ys)
All-append P [] ys hx hy = hy
All-append P (x ∷ xs) ys hx hy = (hx.0, All-append P xs ys hx.1 hy)

hex_digits-All : (n w : ℕ) → All IsHexChar (hex_digits n w)
unfolding hex_digits
hex_digits-All zero w = tt
hex_digits-All (suc n) w =
    All-append IsHexChar (hex_digits n (w / 16)) _ (hex_digits-All n (w / 16))
      ((w % 16, omega arith, refl), tt)

All-get_or : (P : ℕ → Type 0) (xs : List ℕ) (i : ℕ) → All P xs → i < length xs → P (get_or xs i 0)
All-get_or P [] i h lt = absurd (omega arith)
All-get_or P (x ∷ xs) zero h lt = h.0
All-get_or P (x ∷ xs) (suc i) h lt = All-get_or P xs i h.1 (omega arith)

-- Every character behind "0x" is that of a digit.
pub get_str_char : (k : Key) (i : ℕ) → IsKey k → 2 ≤ i → i < 42 → IsHexChar (get_or (get_str k) i 0)
get_str_char k zero h lo hi = absurd (omega arith)
get_str_char k (suc zero) h lo hi = absurd (omega arith)
get_str_char k (suc (suc i)) h lo hi = rw (get_str-value k h) (
    All-get_or IsHexChar (hex_digits 40 (value k)) i (hex_digits-All 40 (value k))
      (omega (arith, length-hex_digits 40 (value k))))
