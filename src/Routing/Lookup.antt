-- ===== src/Routing/Lookup.antt =====
-- What routeLookup of lib/chimera/routing.cpp answers.
use arbore_experiment.Base.{
  ℕ, ◌≤◌, ◌<◌, ◌≡◌, refl, ◌≢◌, Bool, true, false, inl, inr, arith, Bool-cases, none, some,
}
use arbore_experiment.Key.{Key, IsKey, eq, distance}
use arbore_experiment.Key.Order.{value, eq_iff, lt_iff, gt_iff}
use arbore_experiment.Key.Distance.{distance-IsKey}
use arbore_experiment.Host.{Host, Heap, key_of, is_valid}
use arbore_experiment.Leafset.Invariant.{ValidKeys, key_of-IsKey}
use arbore_experiment.Leafset.Lookup.{find_leaf, route_lookup-find_leaf}
use arbore_experiment.RoutingTable.{Result, ok, out_of_range, no_fuel, ◌>>=◌, RoutingTable}
use arbore_experiment.RoutingTable.Invariant.{IsTable}
use arbore_experiment.RoutingTable.Termination.{route_lookup-ne-no_fuel}
use arbore_experiment.Routing.{Routing, key_update, nearer, with_table, route_lookup}
use arbore_experiment.Leafset
use arbore_experiment.RoutingTable
use arbore_experiment.RoutingTable.Walk

-- After KeyUpdate the leafset and the routing table have the new own host, but the routing itself
-- keeps the one before, and routeLookup answers the key of that one with that one.
pub key_update_stale :
    (heap : Heap) (fuel : ℕ) (r : Routing) (me : Host)
    → ((key_update r me).me ≡ r.me)
      × ((key_update r me).leafset.me ≡ me)
      × ((key_update r me).routing_table.me ≡ me)
      × (route_lookup heap fuel (key_update r me) (key_of heap r.me) ≡ ok r.me)
unfolding key_update route_lookup Leafset.key_update RoutingTable.key_update
key_update_stale heap fuel r me =
    (refl, refl, refl, ground (arith, eq_iff (key_of heap r.me) (key_of heap r.me)))

module _ (heap : Heap) (fuel : ℕ) (r : Routing) (key : Key) where
  -- If the key is not the own key and the leafset has a leaf with the key, routeLookup answers
  -- with that leaf.
  pub route_lookup_leaf :
      (h : Host)
      → key_of heap r.me ≢ key
      → find_leaf heap r.leafset key ≡ some h
      → route_lookup heap fuel r key ≡ ok h
  unfolding route_lookup
  route_lookup_leaf h other found = elim (Bool-cases (Leafset.route_lookup heap r.leafset key).1) [
    | inl inside ↦
        ground
          (arith, route_lookup-find_leaf heap r.leafset key, eq_iff (key_of heap r.me) key, found)
    | inr outside ↦
        ground
          (arith, route_lookup-find_leaf heap r.leafset key, eq_iff (key_of heap r.me) key, found)
  ]

  nearer-min :
      (a b : Host)
      → ValidKeys heap
      → IsKey key
      → (value (distance (key_of heap (nearer heap r key a b)) key)
          ≤ value (distance (key_of heap a) key))
        × (value (distance (key_of heap (nearer heap r key a b)) key)
            ≤ value (distance (key_of heap b) key))
  unfolding nearer
  nearer-min a b valid hk =
      let da = distance-IsKey (key_of heap a) key (key_of-IsKey heap valid a) hk in
      let db = distance-IsKey (key_of heap b) key (key_of-IsKey heap valid b) hk in
      ground (arith, lt_iff _ _ da db, gt_iff _ _ da db)

  -- A key that is neither the own key nor that of a leaf is asked of the routing table.
  route_lookup_table :
      key_of heap r.me ≢ key
      → find_leaf heap r.leafset key ≡ none
      → route_lookup heap fuel r key ≡ (
          Walk.route_lookup heap fuel r.routing_table key false
          >>= with_table heap r key (Leafset.route_lookup heap r.leafset key).0)
  unfolding route_lookup
  route_lookup_table other none_there =
      let e : eq (key_of heap r.me) key ≡ false = ground (arith, eq_iff (key_of heap r.me) key) in
      let e' : (Leafset.route_lookup heap r.leafset key).1 ≡ false =
        ground (arith, route_lookup-find_leaf heap r.leafset key) in
      rw (e, e') refl

  -- If the key is neither the own key nor that of a leaf, the keys have five words, and the
  -- routing table answers without a perfect match, then routeLookup answers with a host, and its
  -- distance to the key is at most that of the host the leafset proposes and at most that of the
  -- host the table proposes.
  pub route_lookup_nearest :
      (hop : Host)
      → ValidKeys heap
      → IsKey key
      → key_of heap r.me ≢ key
      → find_leaf heap r.leafset key ≡ none
      → Walk.route_lookup heap fuel r.routing_table key false ≡ ok (hop, false)
      → (h : Host) × (route_lookup heap fuel r key ≡ ok h)
        × (value (distance (key_of heap h) key)
            ≤ value (distance (key_of heap (Leafset.route_lookup heap r.leafset key).0) key))
        × (value (distance (key_of heap h) key) ≤ value (distance (key_of heap hop) key))
  unfolding with_table
  route_lookup_nearest hop valid hk other none_there found =
      let leaf = (Leafset.route_lookup heap r.leafset key).0 in
      let (le, le') = nearer-min leaf hop valid hk in
      (nearer heap r key leaf hop, rw (route_lookup_table other none_there, found) refl, le, le')

-- An answer of the table that is not out of fuel stays so.
with_table-ends :
    (heap : Heap) (r : Routing) (key : Key) (leaf : Host) (res : Result (Host × Bool))
    → res ≢ no_fuel
    → (res >>= with_table heap r key leaf) ≢ no_fuel
unfolding with_table
with_table-ends heap r key leaf (ok (h, b)) e h' = absurd (ground arith)
with_table-ends heap r key leaf out_of_range e h' = absurd (ground arith)
with_table-ends heap r key leaf no_fuel e h' = absurd (e refl)

-- If the own host of the table is not null and the table is well formed, routeLookup of a routing
-- ends for every key: more than 696 rounds for each of the two loops of the routing table are
-- enough.
pub lookup_ends :
    (heap : Heap) (fuel : ℕ) (r : Routing) (key : Key)
    → is_valid r.routing_table.me ≡ true
    → IsTable heap r.routing_table
    → 696 < fuel
    → route_lookup heap fuel r key ≢ no_fuel
unfolding route_lookup
lookup_ends heap fuel r key me t h = elim (Bool-cases (eq (key_of heap r.me) key)) [
  | inl own ↦ rw own (λ e. absurd (ground arith))
  | inr other ↦ elim (Bool-cases (Leafset.route_lookup heap r.leafset key).1) [
    | inl inside ↦ rw (other, inside) (λ e. absurd (ground arith))
    | inr outside ↦
        rw (other, outside)
          (with_table-ends heap r key _ _
            (route_lookup-ne-no_fuel heap r.routing_table me fuel key false t h))
  ]
]
