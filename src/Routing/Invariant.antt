-- ===== src/Routing/Invariant.antt =====
-- The invariant of lib/chimera/routing.cpp: both parts are well formed.
use arbore_experiment.Base.{◌≡◌, refl, Bool, inl, inr, Bool-cases}
use arbore_experiment.Host.{Host, Heap}
use arbore_experiment.Leafset.Invariant.{
  ValidKeys, IsLeafset, init-IsLeafset, key_update-IsLeafset, add-IsLeafset, remove-IsLeafset,
}
use arbore_experiment.RoutingTable.{Result, ok}
use arbore_experiment.RoutingTable.Invariant.{IsTable, init-IsTable, key_update-IsTable}
use arbore_experiment.RoutingTable.Place.{add-IsTable, remove-IsTable}
use arbore_experiment.Routing.{Routing, init, key_update, add, remove}
use arbore_experiment.Leafset

module _ (heap : Heap) where
  pub record IsRouting (r : Routing) : Type 0 where
    pub leaves : IsLeafset heap r.leafset
    pub table : IsTable heap r.routing_table

  -- An operation returns, and the state that it leaves is well formed.
  abbrev pub Keeps : Result (Routing × Bool) → Type 0
  Keeps res = (r' : Routing) × (b : Bool) × (res ≡ ok (r', b)) × IsRouting r'

  init-IsRouting : (me : Host) → IsRouting (init me)
  unfolding init
  init-IsRouting me = record { leaves = init-IsLeafset heap me; table = init-IsTable heap me }

  key_update-IsRouting : (r : Routing) (me : Host) → IsRouting r → IsRouting (key_update r me)
  unfolding key_update
  key_update-IsRouting r me v = record {
    leaves = key_update-IsLeafset heap r.leafset me;
    table = key_update-IsTable heap r.routing_table me v.table;
  }

  -- If all keys of the heap have five words and the routing is well formed, then `add` returns
  -- without an exception and leaves a well-formed routing.
  pub add-IsRouting : (r : Routing) (h : Host) → ValidKeys heap → IsRouting r → Keeps (add heap r h)
  unfolding add
  add-IsRouting r h valid v =
      let kept = add-IsLeafset heap valid r.leafset h v.leaves in
      let (table, b, stored, is) = add-IsTable heap r.routing_table h v.table in
      elim (Bool-cases (Leafset.add heap r.leafset h).1) [
        | inl leaf ↦ rw leaf (_, _, refl, record { leaves = kept; table = v.table })
        | inr other ↦ rw (other, stored) (_, _, refl, record { leaves = kept; table = is })
      ]

  -- If all keys of the heap have five words and the routing is well formed, then `remove` returns
  -- without an exception and leaves a well-formed routing.
  pub remove-IsRouting :
      (r : Routing) (h : Host) → ValidKeys heap → IsRouting r → Keeps (remove heap r h)
  unfolding remove
  remove-IsRouting r h valid v =
      let kept = remove-IsLeafset heap valid r.leafset h v.leaves in
      let (table, b, stored, is) = remove-IsTable heap r.routing_table h v.table in
      elim (Bool-cases (Leafset.remove heap r.leafset h).1) [
        | inl leaf ↦ rw leaf (_, _, refl, record { leaves = kept; table = v.table })
        | inr other ↦ rw (other, stored) (_, _, refl, record { leaves = kept; table = is })
      ]
