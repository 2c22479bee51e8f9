-- ===== src/Config/Items.antt =====
-- Values of items (lib/util/pf_config.cpp): what SetValue accepts and what FindEmpty leaves.
use arbore_experiment.Base.{
  ℕ, ◌<◌, ◌≡◌, Bool, true, false, ◌&&◌, ◌||◌, [], ◌∷◌, arith, All, inl, inr, Bool-cases,
}
use arbore_experiment.Netutil.{Str}
use arbore_experiment.StrMap.{StrMap, str_eq}
use arbore_experiment.Config.{
  ℤ, Kind, string_item, int_item, bool_item, Value, text, number, flag, Item, to_int, all_digits,
  at_least, at_most, int_value, bool_value, kind_value, set_value, is_nothing, with_default,
  defaults, word_true, word_on, word_yes, word_false, word_off, word_no, clone,
}
use arbore_experiment.Config.Load.{clone_items}

-- A value is what its item promises: a text, a flag, or a number of the range that fits an int.
pub data Fits : Kind → Value → Type 0 where
  fits_text : (s : Str) → Fits string_item (text s)
  fits_number :
      (min max : ℤ) (n : ℕ)
      → n < 2147483648
      → at_least n min ≡ true
      → at_most n max ≡ true
      → Fits (int_item min max) (number n)
  fits_flag : (b : Bool) → Fits bool_item (flag b)

to_int-lt : (s : Str) → to_int s < 2147483648
unfolding to_int
to_int-lt s = ground arith

kind_value-Fits :
    (k : Kind) (old : Value) (s : Str)
    → (kind_value k old s).1 ≡ true
    → Fits k (kind_value k old s).0
unfolding kind_value int_value bool_value
kind_value-Fits string_item old s h = fits_text s
kind_value-Fits (int_item min max) old s h = elim (Bool-cases (all_digits s)) [
  | inl digits ↦
      let n = to_int s in
      let bounds : (at_least n min && at_most n max) ≡ true = rw digits at h in
      rw digits
        (fits_number min max n (to_int-lt s) (ground (arith, bounds)) (ground (arith, bounds)))
  | inr other ↦ let refused : false ≡ true = rw other at h in absurd cc
]
kind_value-Fits bool_item old s h =
    elim (Bool-cases (str_eq s word_true || str_eq s word_on || str_eq s word_yes)) [
      | inl yes' ↦ rw yes' (fits_flag true)
      | inr not_true ↦
          elim (Bool-cases (str_eq s word_false || str_eq s word_off || str_eq s word_no)) [
            | inl no' ↦ rw (not_true, no') (fits_flag false)
            | inr neither ↦ let refused : false ≡ true = rw (not_true, neither) at h in absurd cc
          ]
    ]

-- An item that was found in the file has a value of its kind.
abbrev pub Filled : Item → Type 0
Filled i = i.found ≡ true → Fits i.kind i.value

abbrev pub AllFilled : StrMap Item → Type 0
AllFilled = All (λ (l, i). Filled i)

pub set_value-Filled : (i : Item) (s : Str) → (set_value i s).1 ≡ true → Filled (set_value i s).0
unfolding set_value
set_value-Filled i s h = λ found. kind_value-Fits i.kind i.value s h

with_default-Filled : (i : Item) → Filled i → Filled (with_default i).0
unfolding with_default set_value
with_default-Filled i f = elim (Bool-cases i.found) [
  | inl found ↦ rw found (λ x. f found)
  | inr missing ↦ elim (Bool-cases (is_nothing i.def_value)) [
    | inl nothing ↦ rw (missing, nothing) (λ x. absurd (ground (arith, x)))
    | inr default ↦ rw (missing, default) (λ x. absurd (ground (arith, x)))
  ]
]

pub defaults-AllFilled : (is : StrMap Item) → AllFilled is → AllFilled (defaults is).0
unfolding defaults
defaults-AllFilled [] a = tt
defaults-AllFilled ((l, i) ∷ is) a = (with_default-Filled i a.0, defaults-AllFilled is a.1)

pub clone_items-AllFilled : (is : StrMap Item) → AllFilled (clone_items is)
unfolding clone_items clone
clone_items-AllFilled [] = tt
clone_items-AllFilled ((l, i) ∷ is) =
    (λ found. absurd (ground (arith, found)), clone_items-AllFilled is)
