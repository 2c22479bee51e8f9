-- ===== src/Tests/Keys.antt =====
-- Runs of lib/util/key.cpp.
use arbore_experiment.Base.{◌/◌, ◌^◌, ◌≤◌, ◌≡◌, refl, arith, ◌↔◌, ◌⊎◌, [], ◌∷◌, true, false}
use arbore_experiment.Key.{
  zero_key, key_max, of_word, eq, is_null, gt_down, gt, lt_down, lt, sub_loop, sub, distance,
  between, hex_digit, hex_digits, get_str, same_prefix, key_index,
}
use arbore_experiment.Key.Order.{value}
use arbore_experiment.Key.Distance.{RingDistance, Ends, value-distance, distance-eq-zero_iff}
use arbore_experiment.Key.Hex.{get_str-value, get_str-injective}
use arbore_experiment.Key.Index.{key_index-value}
use arbore_experiment.Tests.{key_at, key_at-IsKey}

unfoldable pub program : Unit {0}
unfolding of_word eq is_null gt_down gt lt_down lt sub_loop sub distance between hex_digit
    hex_digits get_str same_prefix key_index
program = tt

order :
    (gt (key_at 3) (key_at 18) ≡ true)
    × (lt (key_at 3) (key_at 19) ≡ true)
    × (gt (key_at 3) (key_at 3) ≡ false)
    × (is_null zero_key ≡ true)
    × (eq zero_key (of_word 0) ≡ true)
unfolding program
order = (refl, refl, refl, refl, refl)

wraps :
    distance (key_at 15) (key_at 1)
    ≡ 4294967295 ∷ 4294967295 ∷ 4294967295 ∷ 4294967295 ∷ 536870911 ∷ []
unfolding program
wraps = refl

ends_meet : distance zero_key key_max ≡ zero_key
unfolding program
ends_meet = refl

inside_is_false : between (key_at 3) (key_at 1) (key_at 5) ≡ false
unfolding program
inside_is_false = refl

indices : (key_index (key_at 3) (key_at 5) ≡ 2) × (key_index (key_at 3) (key_at 19) ≡ 39)
unfolding program
indices = (refl, refl)

value-distance_example :
    RingDistance (value (key_at 15)) (value (key_at 1)) (value (distance (key_at 15) (key_at 1)))
value-distance_example = value-distance (key_at 15) (key_at 1) (key_at-IsKey 15) (key_at-IsKey 1)

zero_distance :
    (value (distance (key_at 15) (key_at 1)) ≡ 0)
    ↔ ((key_at 15 ≡ key_at 1) ⊎ (Ends (key_at 15) (key_at 1) ⊎ Ends (key_at 1) (key_at 15)))
zero_distance = distance-eq-zero_iff (key_at 15) (key_at 1) (key_at-IsKey 15) (key_at-IsKey 1)

prints_key : key_at 19 ≡ key_at 19
prints_key = get_str-injective (key_at 19) (key_at 19) (key_at-IsKey 19) (key_at-IsKey 19) refl

get_str-value_example : get_str (key_at 19) ≡ b'0' ∷ b'x' ∷ hex_digits 40 (value (key_at 19))
get_str-value_example = get_str-value (key_at 19) (key_at-IsKey 19)

key_index-value_example :
    (3 ≤ key_index (key_at 3) (key_at 19))
    ↔ (value (key_at 3) / 16 ^ 39 ≡ value (key_at 19) / 16 ^ 39)
key_index-value_example =
    key_index-value (key_at 3) (key_at 19) 1 39 (key_at-IsKey 3) (key_at-IsKey 19) (omega arith)
      refl
