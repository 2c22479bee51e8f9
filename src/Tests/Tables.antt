-- ===== src/Tests/Tables.antt =====
-- Runs of lib/chimera/routing_table.cpp.
use arbore_experiment.Base.{ℕ, get_or, ap, ◌%◌, ◌≡◌, ◌≢◌, ◌<◌, refl, arith, true, false}
use arbore_experiment.Key.{Key, key_index}
use arbore_experiment.Host.{ref, key_of, is_valid, same, success_avg_of, latency_of}
use arbore_experiment.RoutingTable.{
  ok, out_of_range, RoutingTable, get_entry, set_entry, at, clear, init, key_update, hexalpha_from,
  hexalpha_to_int, digit, find_place, pick, is_worse, is_better, find_worst_entry, find_best_entry,
  row_of, column_of, finish_add, add, remove_from, remove, place_entries, row_entries, get_row,
}
use arbore_experiment.RoutingTable.Walk.{
  is_good_link, best_link, best_entry, choose, perfect_match, own_column, probe, move_cw, move_ccw,
  walk_cw, walk_ccw, nearer, closest, route_lookup,
}
use arbore_experiment.RoutingTable.Invariant.{IsTable, init-IsTable, set_entry-IsTable}
use arbore_experiment.RoutingTable.Place.{IsAdded, IsRemoved, add-IsAdded, remove-IsRemoved}
use arbore_experiment.RoutingTable.Prefix.{route_lookup_progress}
use arbore_experiment.RoutingTable.Throws.{route_lookup-out_of_range}
use arbore_experiment.Tests.Keys.{program as keys}
use arbore_experiment.Tests.{key_at, key_at-IsKey, heap, heap-ValidKeys, me}

unfoldable pub program : Unit {0}
unfolding keys key_of is_valid same success_avg_of latency_of get_entry set_entry at clear init
    key_update hexalpha_from hexalpha_to_int digit find_place pick is_worse is_better
    find_worst_entry find_best_entry row_of column_of finish_add add remove_from remove
    place_entries row_entries get_row is_good_link best_link best_entry choose perfect_match
    own_column probe move_cw move_ccw walk_cw walk_ccw nearer closest route_lookup
program = tt

digits : (hexalpha_to_int b'b' ≡ 11) × (digit (key_at 3) 2 ≡ 3) × (hexalpha_to_int b'x' ≡ 0)
unfolding program
digits = (refl, refl, refl)

-- The host p in the k-th entry of its place in the row 2.
abbrev pub put : RoutingTable → ℕ → ℕ → RoutingTable
put rt p k = set_entry rt 2 (p % 16) k (ref p)

abbrev pub table3 : RoutingTable
table3 = put (init me) 3 0

-- The first column is full.
abbrev table0 : RoutingTable
table0 = put (put (put (init me) 0 0) 16 1) 32 2

-- A hole in front of an entry.
abbrev holed : RoutingTable
holed = put (init me) 19 1

added :
    (add heap (init me) (ref 3) ≡ ok (table3, true))
    × (add heap table3 (ref 3) ≡ ok (table3, false))
    × (add heap table3 (ref 19) ≡ ok (put table3 19 1, true))
unfolding program
added = (refl, refl, refl)

refused : add heap table3 me ≡ ok (table3, false)
unfolding program
refused = refl

found_at_once : route_lookup heap 700 table3 (key_at 51) false ≡ ok (ref 3, true)
unfolding program
found_at_once = refl

pub table3-IsTable : IsTable heap table3
unfolding program
table3-IsTable =
    set_entry-IsTable heap (init me) 2 3 0 (ref 3) (init-IsTable heap me)
      (record { row = omega arith; column = omega arith; entry = omega arith }) (λ _. (refl, refl))

holed-IsTable : IsTable heap holed
unfolding program
holed-IsTable =
    set_entry-IsTable heap (init me) 2 3 1 (ref 19) (init-IsTable heap me)
      (record { row = omega arith; column = omega arith; entry = omega arith }) (λ _. (refl, refl))

unfoldable pub last_word : Key → ℕ
last_word k = get_or k 4 0

pub differ : (k k' : Key) → last_word k ≢ last_word k' → k ≢ k'
differ k k' h e = h (ap last_word e)

pub me-ne-51 : key_of heap me ≢ key_at 51
unfolding key_of
me-ne-51 = differ (key_at 8) (key_at 51) (unfold last_word in omega arith)

add-IsAdded_example : IsAdded heap table3 (ref 19) (add heap table3 (ref 19))
add-IsAdded_example = add-IsAdded heap table3 (ref 19) table3-IsTable

remove-IsRemoved_example : IsRemoved heap table3 (ref 51) 0 (remove heap table3 (ref 51))
unfolding key_of set_entry init
remove-IsRemoved_example = remove-IsRemoved heap table3 (ref 51) table3-IsTable me-ne-51

route_lookup_progress_example :
    key_index (key_of heap me) (key_at 51) < key_index (key_of heap (ref 3)) (key_at 51)
unfolding program
route_lookup_progress_example =
    route_lookup_progress heap table3 (key_at 51) 700 (ref 3) heap-ValidKeys (key_at-IsKey 51)
      table3-IsTable me-ne-51 (omega arith) refl

route_lookup-out_of_range_example : route_lookup heap 700 table0 (key_at 9) false ≡ out_of_range
unfolding program
route_lookup-out_of_range_example =
    route_lookup-out_of_range heap table0 (key_at 9) false (ref 16) (ref 32) refl refl
      (differ (key_at 8) (key_at 9) (unfold last_word in omega arith)) refl (omega arith) refl refl
      refl refl

-- The key is stored a second time, in the hole before the cell that has it.
stores_twice :
    (rt' : RoutingTable) × (add heap holed (ref 19) ≡ ok (rt', true))
    × (get_entry rt' 2 3 0 ≡ ok (ref 19))
    × (get_entry rt' 2 3 1 ≡ ok (ref 19))
unfolding program
stores_twice = (_, refl, refl, refl)
