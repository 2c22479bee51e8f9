-- ===== src/Tests/Routings.antt =====
-- Runs of lib/chimera/routing.cpp.
use arbore_experiment.Base.{◌≡◌, ◌≢◌, ◌≤◌, refl, arith, [], ◌∷◌, true}
use arbore_experiment.Key.{distance}
use arbore_experiment.Key.Order.{value}
use arbore_experiment.Host.{Host, ref, key_of}
use arbore_experiment.Leafset.Lookup.{find_leaf}
use arbore_experiment.Leafset
use arbore_experiment.RoutingTable.{ok, no_fuel}
use arbore_experiment.Routing.{
  Routing, init, key_update, add, remove, nearer, with_table, route_lookup, row_lookup, get_leafset,
}
use arbore_experiment.Routing.Invariant.{IsRouting, Keeps, add-IsRouting, remove-IsRouting}
use arbore_experiment.Routing.Lookup.{route_lookup_leaf, route_lookup_nearest, lookup_ends}
use arbore_experiment.Tests.Leafsets.{program as leafsets, one, one-IsLeafset}
use arbore_experiment.Tests.Tables.{
  program as tables, table3, table3-IsTable, differ, put, last_word,
}
use arbore_experiment.Tests.{key_at, key_at-IsKey, heap, heap-ValidKeys, me}

program : Unit {0}
unfolding leafsets tables init key_update add remove nearer with_table route_lookup row_lookup
    get_leafset
program = tt

abbrev routing : Routing
routing = record { me = me; routing_table = table3; leafset = one }

routing-IsRouting : IsRouting heap routing
routing-IsRouting = record { leaves = one-IsLeafset; table = table3-IsTable }

-- The leafset takes the first hosts, and the routing table those that it refuses.
adds :
    (add heap (init me) (ref 9) ≡ ok (record (init me) { leafset = one }, true))
    × (add heap routing (ref 9) ≡ ok (record routing { routing_table = put table3 9 0 }, true))
unfolding program
adds = (refl, refl)

answers :
    (route_lookup heap 700 routing (key_at 8) ≡ ok me)
    × (route_lookup heap 700 routing (key_at 9) ≡ ok (ref 9))
    × (route_lookup heap 700 routing (key_at 51) ≡ ok (ref 3))
    × (row_lookup heap routing (key_at 51) ≡ ok (ref 3 ∷ me ∷ []))
    × (get_leafset routing ≡ ref 9 ∷ [])
unfolding program Leafset.get_copy
answers = (refl, refl, refl, refl, refl)

add-IsRouting_example : Keeps heap (add heap routing (ref 19))
add-IsRouting_example = add-IsRouting heap routing (ref 19) heap-ValidKeys routing-IsRouting

remove-IsRouting_example : Keeps heap (remove heap routing (ref 3))
remove-IsRouting_example = remove-IsRouting heap routing (ref 3) heap-ValidKeys routing-IsRouting

answers_leaf : route_lookup heap 700 routing (key_at 9) ≡ ok (ref 9)
unfolding program find_leaf
answers_leaf =
    route_lookup_leaf heap 700 routing (key_at 9) (ref 9)
      (differ (key_at 8) (key_at 9) (unfold last_word in omega arith)) refl

route_lookup_nearest_example :
    (h : Host) × (route_lookup heap 700 routing (key_at 15) ≡ ok h)
    × (value (distance (key_of heap h) (key_at 15))
        ≤ value (distance (key_of heap (Leafset.route_lookup heap one (key_at 15)).0) (key_at 15)))
    × (value (distance (key_of heap h) (key_at 15)) ≤ value (distance (key_of heap me) (key_at 15)))
unfolding program find_leaf
route_lookup_nearest_example =
    route_lookup_nearest heap 700 routing (key_at 15) me heap-ValidKeys (key_at-IsKey 15)
      (differ (key_at 8) (key_at 15) (unfold last_word in omega arith)) refl refl

lookup_ends_example : route_lookup heap 700 routing (key_at 51) ≢ no_fuel
unfolding program
lookup_ends_example = lookup_ends heap 700 routing (key_at 51) refl table3-IsTable (omega arith)
