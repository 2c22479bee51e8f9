-- ===== src/Tests/Leafsets.antt =====
-- Runs of lib/chimera/leafset.cpp.
use arbore_experiment.Base.{◌≡◌, refl, List, [], ◌∷◌, true, false, none, if◌then◌else◌}
use arbore_experiment.Key.{eq}
use arbore_experiment.Host.{Host, ref, key_of}
use arbore_experiment.Leafset.{
  Leafset, pop_back, after_scan, scan, add_side, remove_side, last, init, clear, same_key, key_lt,
  key_gt, add, remove, find_key, route_lookup,
}
use arbore_experiment.Leafset.Invariant.{IsLeafset, init-IsLeafset, add-IsLeafset}
use arbore_experiment.Leafset.Nearest.{Shows, note_all, add_all, add_all-Shows}
use arbore_experiment.Leafset.Lookup.{find_leaf, find_leaf-remove}
use arbore_experiment.Tests.Keys.{program as keys}
use arbore_experiment.Tests.{key_at, heap, heap-ValidKeys, me}

unfoldable pub program : Unit {0}
unfolding keys key_of pop_back after_scan scan add_side remove_side last init clear same_key key_lt
    key_gt add remove find_key route_lookup add_all
program = tt

abbrev hosts : List Host
hosts = ref 12 ∷ ref 9 ∷ ref 7 ∷ ref 13 ∷ ref 11 ∷ ref 10 ∷ ref 9 ∷ ref 8 ∷ ref 2 ∷ []

abbrev filled : Leafset
filled = record {
  me = me;
  leaves_cw = ref 9 ∷ ref 10 ∷ ref 11 ∷ ref 12 ∷ [];
  leaves_ccw = ref 7 ∷ ref 2 ∷ [];
}

fill : add_all heap (init me) hosts ≡ filled
unfolding program
fill = refl

lookups :
    (route_lookup heap filled (key_at 10) ≡ (ref 10, true))
    × (route_lookup heap filled (key_at 14) ≡ (ref 12, false))
    × (route_lookup heap filled (key_at 5) ≡ (ref 2, false))
    × (route_lookup heap filled (key_at 8) ≡ (me, false))
unfolding program
lookups = (refl, refl, refl, refl)

abbrev pub one : Leafset
one = (add heap (init me) (ref 9)).0

pub one-IsLeafset : IsLeafset heap one
one-IsLeafset = add-IsLeafset heap heap-ValidKeys (init me) (ref 9) (init-IsLeafset heap me)

add_all-Shows_example :
    Shows heap me
      (add_all heap (init me) hosts)
      (note_all heap me (record { above = []; below = [] }) hosts)
add_all-Shows_example = add_all-Shows heap heap-ValidKeys me hosts

find_leaf-remove_example :
    find_leaf heap (remove heap one (ref 9)).0 (key_at 9)
    ≡ (if eq (key_at 9) (key_of heap (ref 9)) then none else find_leaf heap one (key_at 9))
unfolding program
find_leaf-remove_example =
    find_leaf-remove heap heap-ValidKeys one (ref 9) (key_at 9) one-IsLeafset refl
