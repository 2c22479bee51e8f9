-- ===== src/Session/Numbers.antt =====
-- Numbers of 32 bits in a SessionConfig (lib/util/session_config.h).
use mathlib.Core.List.{append_assoc, append-nil}
use native.Mathlib.Nat.{pow-suc}
use arbore_experiment.Base.{
  ℕ, zero, suc, ◌+◌, ◌-◌, ◌*◌, ◌/◌, ◌%◌, ◌<◌, ◌≤◌, ◌^◌, ◌||◌, sym, false, ◌≡◌, refl, ap, ◌∙◌, true,
  false, ◌&&◌, some, [], ◌∷◌, ◌++◌, if◌then◌else◌, arith, inl, inr, Bool-cases, leb, ltb, ◌==◌,
}
use arbore_experiment.Netutil.{Str}
use arbore_experiment.StrMap.{str_eq}
use arbore_experiment.StrMap.Order.{find-put}
use arbore_experiment.Session.{
  digits_of, to_decimal, is_space, skip_space, read_digits, limited, read_signed, to_uint32,
  SessionConfig, set_uint32, read_as, get_uint32,
}

read_digits-digit :
    (a d : ℕ) (rest : Str)
    → d < 10
    → read_digits a ((b'0' + d) ∷ rest) ≡ read_digits (a * 10 + d) rest
unfolding read_digits
read_digits-digit a d rest h = let e : b'0' + d - b'0' ≡ d = omega arith in rw e (ground arith)

-- The digits of a number are read as that number, and what is behind them after it.
read_digits-digits_of :
    (f n : ℕ) (rest : Str)
    → n < 10 ^ suc f
    → read_digits 0 (digits_of (suc f) n ++ rest) ≡ read_digits n rest
unfolding digits_of
read_digits-digits_of zero n rest h =
    let e : ltb n 10 ≡ true = ground (arith, pow-suc 10 0) in
    rw (e, read_digits-digit 0 n rest (omega (arith, pow-suc 10 0)))
      (ap (λ m. read_digits m rest) (omega arith))
read_digits-digits_of (suc f) n rest h = elim (Bool-cases (ltb n 10)) [
  | inl small ↦
      rw (small, read_digits-digit 0 n rest (ground arith))
        (ap (λ m. read_digits m rest) (omega arith))
  | inr large ↦
      let last = n % 10 in
      let e : n / 10 * 10 + n % 10 ≡ n = omega arith in
      rw
        (
          large,
          append_assoc (digits_of (suc f) (n / 10)) ((b'0' + n % 10) ∷ []) rest,
          read_digits-digits_of f (n / 10) ((b'0' + n % 10) ∷ rest)
              (omega (arith, pow-suc 10 (suc f))),
          read_digits-digit (n / 10) (n % 10) rest (omega arith),
          e,
        )
        refl
]

-- The text begins with a digit.
record BeginsWithDigit (s : Str) : Type 0 where
  first : ℕ
  others : Str
  splits : s ≡ first ∷ others
  low : b'0' ≤ first
  high : first ≤ b'9'

digits_of-BeginsWithDigit : (f n : ℕ) → BeginsWithDigit (digits_of (suc f) n)
unfolding digits_of
digits_of-BeginsWithDigit zero n = elim (Bool-cases (ltb n 10)) [
  | inl small ↦ record {
    first = b'0' + n;
    others = [];
    splits = rw small refl;
    low = omega arith;
    high = ground arith;
  }
  | inr large ↦ record {
    first = b'0' + n % 10;
    others = [];
    splits = rw large refl;
    low = omega arith;
    high = omega arith;
  }
]
digits_of-BeginsWithDigit (suc f) n = elim (Bool-cases (ltb n 10)) [
  | inl small ↦ record {
    first = b'0' + n;
    others = [];
    splits = rw small refl;
    low = omega arith;
    high = ground arith;
  }
  | inr large ↦
      let d = digits_of-BeginsWithDigit f (n / 10) in
      record {
        first = d.first;
        others = d.others ++ (b'0' + n % 10) ∷ [];
        splits = rw (large, d.splits) refl;
        low = d.low;
        high = d.high;
      }
]

read_signed-digit :
    (c : ℕ) (cs : Str)
    → b'0' ≤ c
    → c ≤ b'9'
    → read_signed (skip_space (c ∷ cs)) ≡ limited false (read_digits 0 (c ∷ cs))
unfolding read_signed skip_space is_space
read_signed-digit c cs l h =
    let e : (c == b' ' || (leb 9 c && leb c 13)) ≡ false = ground arith in
    let plus : (c == b'+') ≡ false = ground arith in
    let minus : (c == b'-') ≡ false = ground arith in rw (e, minus, plus) refl

-- StrToTyp reads a number of 32 bits as TypToStr wrote it.
pub to_uint32-to_decimal : (n : ℕ) → n < 4294967296 → to_uint32 (to_decimal n) ≡ n
unfolding to_uint32 to_decimal
to_uint32-to_decimal n h =
    let d = digits_of-BeginsWithDigit 9 n in
    let big : 4294967296 < 10 ^ 10 = omega arith in
    let whole : read_digits 0 (digits_of 10 n) ≡ n =
      sym (ap (read_digits 0) (append-nil (digits_of 10 n)))
      ∙ read_digits-digits_of 9 n [] (omega (arith, big))
      ∙ (unfold read_digits in refl) in
    let small : limited false n ≡ n = unfold limited in ground arith in
    ap (λ s. read_signed (skip_space s)) d.splits
    ∙ read_signed-digit d.first d.others d.low d.high
    ∙ ap (λ s. limited false (read_digits 0 s)) (sym d.splits)
    ∙ ap (limited false) whole
    ∙ small

-- Get of a number after Set of one.
pub get_uint32-set_uint32 :
    (opt : Str) (n : ℕ) (c : SessionConfig) (o : Str)
    → n < 4294967296
    → get_uint32 (set_uint32 opt n c) o ≡ (if str_eq o opt then some n else get_uint32 c o)
unfolding get_uint32 set_uint32 read_as
get_uint32-set_uint32 opt n c o h =
    rw (find-put opt (to_decimal n) c.list o) (elim (Bool-cases (str_eq o opt)) [
      | inl same ↦ rw same (ap some (to_uint32-to_decimal n h))
      | inr other ↦ rw other refl
    ])
