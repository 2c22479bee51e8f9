-- ===== src/Routing.antt =====
-- lib/chimera/routing.cpp: the leafset and the routing table together. Its methods hold a lock from
-- their first line to their end, so each is one step.
pub mod Invariant
pub mod Lookup
use arbore_experiment.Base.{ℕ, ◌≡◌, Bool, true, false, ◌++◌, List, if◌then◌else◌}
use arbore_experiment.Key.{Key, eq, lt, gt, distance, key_index}
use arbore_experiment.Host.{Host, Heap, key_of, same}
use arbore_experiment.Leafset.{Leafset}
use arbore_experiment.Leafset
use arbore_experiment.RoutingTable.{RoutingTable, Result, ok, out_of_range, no_fuel, ◌>>=◌}
use arbore_experiment.RoutingTable
use arbore_experiment.RoutingTable.Walk

pub record Routing : Type 0 where
  pub me : Host
  pub routing_table : RoutingTable
  pub leafset : Leafset

-- Routing(Host).
unfoldable pub init : Host → Routing
init me = record { me = me; routing_table = RoutingTable.init me; leafset = Leafset.init me }

-- KeyUpdate: the parameter has the name of the member, which keeps its value.
unfoldable pub key_update : Routing → Host → Routing
key_update r me = record r {
  routing_table = RoutingTable.key_update r.routing_table me;
  leafset = Leafset.key_update r.leafset me;
}

module _ (heap : Heap) where
  unfoldable pub add : Routing → Host → Result (Routing × Bool)
  add r host =
      let (leafset, added) = Leafset.add heap r.leafset host in
      let r' = record r { leafset = leafset } in
      if added then ok (r', true) else (do
        (table, added') ← RoutingTable.add heap r.routing_table host
        ok (record r' { routing_table = table }, added'))

  unfoldable pub remove : Routing → Host → Result (Routing × Bool)
  remove r host =
      let (leafset, removed) = Leafset.remove heap r.leafset host in
      let r' = record r { leafset = leafset } in
      if removed then ok (r', true) else (do
        (table, removed') ← RoutingTable.remove heap r.routing_table host
        ok (record r' { routing_table = table }, removed'))

  -- The choice between the candidates of the two parts.
  unfoldable pub nearer : Routing → Key → Host → Host → Host
  nearer r key leaf_best table_best =
      let dist_lb = distance (key_of heap leaf_best) key in
      let dist_rb = distance (key_of heap table_best) key in
      if lt dist_lb dist_rb
      then leaf_best
      else if gt dist_lb dist_rb
      then table_best
      else if same leaf_best r.me
      then leaf_best
      else table_best

  -- What routeLookup does with the answer of the routing table.
  unfoldable pub with_table : Routing → Key → Host → Host × Bool → Result Host
  with_table r key leaf_best (table_best, perfect) =
      ok (if perfect then table_best else nearer r key leaf_best table_best)

  -- routeLookup.
  unfoldable pub route_lookup : ℕ → Routing → Key → Result Host
  unfolding with_table
  route_lookup fuel r key =
      let (leaf_best, inside) = Leafset.route_lookup heap r.leafset key in
      if eq (key_of heap r.me) key
      then ok r.me
      else if inside
      then ok leaf_best
      else Walk.route_lookup heap fuel r.routing_table key inside >>= with_table r key leaf_best

  -- rowLookup.
  unfoldable pub row_lookup : Routing → Key → Result (List Host)
  row_lookup r key = RoutingTable.get_row r.routing_table (key_index (key_of heap r.me) key)

-- getLeafset and getRoutingTable.
unfoldable pub get_leafset : Routing → List Host
get_leafset r = Leafset.get_copy r.leafset

unfoldable pub get_routing_table : Routing → Result (List Host)
get_routing_table r = RoutingTable.get_copy r.routing_table

-- getCWLeafset and getCCWLeafset.
unfoldable pub get_cw_leafset : Routing → List Host
get_cw_leafset r = Leafset.get_cw_side r.leafset

unfoldable pub get_ccw_leafset : Routing → List Host
get_ccw_leafset r = Leafset.get_ccw_side r.leafset
