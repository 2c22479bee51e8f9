-- ===== src/RoutingTable/Termination.antt =====
-- routeLookup of lib/chimera/routing_table.cpp ends: both of its loops do, from any place.
use arbore_experiment.Base.{
  ℕ, zero, suc, ◌+◌, ◌-◌, ◌*◌, ◌<◌, ◌≡◌, refl, ◌≢◌, inl, inr, Bool, true, arith, if◌then◌else◌,
  Bool-cases,
}
use arbore_experiment.Key.{Key, eq}
use arbore_experiment.Host.{Host, invalid, Heap, key_of, is_valid, same}
use arbore_experiment.RoutingTable.{
  Result, ok, out_of_range, no_fuel, ◌>>=◌, RoutingTable, row_of, column_of,
}
use arbore_experiment.RoutingTable.Invariant.{IsTable, row_of-InRange}
use arbore_experiment.RoutingTable.Prefix.{perfect_match-IsCandidate}
use arbore_experiment.RoutingTable.Search.{
  Ends, Keeps, Nearer, rounds_ccw, probe_if-Keeps, Keeps-Nearer, move_ccw-Nearer, walk_ccw-found,
  walk_cw-Ends,
}
use arbore_experiment.RoutingTable.Walk.{Cursor, probe, move_ccw, walk_ccw, closest, route_lookup}

module _ (heap : Heap) (rt : RoutingTable) (me : is_valid rt.me ≡ true) where
  -- The counter-clockwise loop ends.
  walk_ccw-Ends :
      (n : ℕ) (cw : Host) (c : Cursor)
      → c.i < 40
      → c.j < 16
      → rounds_ccw c < n
      → Ends (walk_ccw heap n rt cw c)
  unfolding walk_ccw
  walk_ccw-Ends zero cw c hi hj h = absurd (omega arith)
  walk_ccw-Ends (suc n) cw c hi hj h = elim (Bool-cases (same c.best invalid)) [
    | inr found ↦ rw found tt
    | inl searching ↦ rw searching (
        from (if is_valid cw then probe heap rt (move_ccw heap rt c) else ok (move_ccw heap rt c))
          (probe_if-Keeps heap rt me _ (move_ccw heap rt c))
          (λ c' near. elim near [
            | inl is ↦ rw (walk_ccw-found heap rt me n cw c' (omega arith) is) tt
            | inr (hi', hj', less) ↦ walk_ccw-Ends n cw c' hi' hj' (omega arith)
          ]))
  ]
    where
      from :
          (r : Result Cursor)
          → Keeps (move_ccw heap rt c) r
          → ((c' : Cursor) → Nearer rounds_ccw c c' → Ends (walk_ccw heap n rt cw c'))
          → Ends (r >>= walk_ccw heap n rt cw)
      from (ok c') k ih = ih c' (
          Keeps-Nearer heap rt me (λ i j. (40 - i) * 17 + j) c (move_ccw heap rt c) c' k
            (move_ccw-Nearer heap rt me c hi hj))
      from out_of_range k ih = tt
      from no_fuel k ih = absurd k

  Ends-bind :
      {A B : Type 0} (r : Result A) (f : A → Result B)
      → Ends r
      → ((a : A) → Ends (f a))
      → Ends (r >>= f)
  Ends-bind (ok a) f e k = k a
  Ends-bind out_of_range f e k = tt
  Ends-bind no_fuel f e k = absurd e

  Ends-ne-no_fuel : {A : Type 0} (r : Result A) → Ends r → r ≢ no_fuel
  Ends-ne-no_fuel (ok a) e h = absurd (ground arith)
  Ends-ne-no_fuel out_of_range e h = absurd (ground arith)
  Ends-ne-no_fuel no_fuel e h = absurd e

  closest-Ends :
      (fuel i j : ℕ) (key : Key)
      → i < 40
      → j < 16
      → 696 < fuel
      → Ends (closest heap fuel rt i j key)
  unfolding closest
  closest-Ends fuel i j key hi hj h =
      Ends-bind _ _ (walk_cw-Ends heap rt me fuel _ hi hj (omega arith))
        (λ cw. Ends-bind _ _ (walk_ccw-Ends fuel cw _ hi hj (omega arith)) (λ ccw. tt))

  -- Both loops of a lookup end within 697 rounds, whatever the table holds.
  pub route_lookup-ne-no_fuel :
      (fuel : ℕ) (key : Key) (perfect : Bool)
      → IsTable heap rt
      → 696 < fuel
      → route_lookup heap fuel rt key perfect ≢ no_fuel
  unfolding route_lookup
  route_lookup-ne-no_fuel fuel key perfect t h =
      Ends-ne-no_fuel _ (elim (Bool-cases (eq (key_of heap rt.me) key)) [
        | inl own ↦ rw own tt
        | inr other ↦
            let r = row_of-InRange heap rt key 0 (omega arith) in
            let (hop, ends, c) =
              perfect_match-IsCandidate heap rt (row_of heap rt key) (column_of heap rt key) key 3 0
                invalid refl t r.row r.column (inl (unfold is_valid in refl)) in
            rw (other, ends)
              (elim (Bool-cases (is_valid hop)) [
                | inl is ↦ rw is tt
                | inr null ↦
                    rw null
                      (Ends-bind _ _ (closest-Ends fuel _ _ key r.row r.column h) (λ found. tt))
              ])
      ])
