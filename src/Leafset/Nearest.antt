-- ===== src/Leafset/Nearest.antt =====
-- What a leafset (lib/chimera/leafset.cpp) holds after a series of additions, against the ordered
-- lists of all the hosts that were added.

use arbore_experiment.Base.{◌≡◌, refl, List, [], ◌∷◌, arith, ltb, if◌then◌else◌, take}
use arbore_experiment.Host.{Host, Heap}
use arbore_experiment.Leafset.{Leafset, init, add}
use arbore_experiment.Leafset.Side.{insert, take-insert-take}
use arbore_experiment.Leafset.Invariant.{
  ValidKeys, IsLeafset, cw_rank, ccw_rank, add-sides, add-IsLeafset, init-IsLeafset,
}

-- All the hosts that were ever added, on the two sides of a host, in order.
pub record Neighbours : Type 0 where
  pub above : List Host
  pub below : List Host

module _ (heap : Heap) where
  unfoldable pub note : Host → Neighbours → Host → Neighbours
  note me n e = record {
    above =
        if ltb (cw_rank heap me) (cw_rank heap e) then insert (cw_rank heap) e n.above else n.above;
    below =
        if ltb (ccw_rank heap me) (ccw_rank heap e)
        then insert (ccw_rank heap) e n.below
        else n.below;
  }

  unfoldable pub add_all : Leafset → List Host → Leafset
  add_all l [] = l
  add_all l (e ∷ es) = add_all (add heap l e).0 es

  unfoldable pub note_all : Host → Neighbours → List Host → Neighbours
  note_all me n [] = n
  note_all me n (e ∷ es) = note_all me (note me n e) es

  -- A leafset shows the first four of each side.
  pub record Shows (me : Host) (l : Leafset) (n : Neighbours) : Type 0 where
    pub valid : IsLeafset heap l
    pub own : l.me ≡ me
    pub cw : l.leaves_cw ≡ take 4 n.above
    pub ccw : l.leaves_ccw ≡ take 4 n.below

module _ (heap : Heap) (valid : ValidKeys heap) (me : Host) where
  Shows-add :
      (l : Leafset) (n : Neighbours) (e : Host)
      → Shows heap me l n
      → Shows heap me (add heap l e).0 (note heap me n e)
  unfolding note
  Shows-add l n e s =
      let (own, cw, ccw) = add-sides heap valid l e s.valid in
      record {
        valid = add-IsLeafset heap valid l e s.valid;
        own = ground arith;
        cw = rw (cw, s.own, s.cw) (ground (arith, take-insert-take (cw_rank heap) 4 e n.above));
        ccw = rw (ccw, s.own, s.ccw) (ground (arith, take-insert-take (ccw_rank heap) 4 e n.below));
      }

  Shows-add_all :
      (l : Leafset) (n : Neighbours) (es : List Host)
      → Shows heap me l n
      → Shows heap me (add_all heap l es) (note_all heap me n es)
  unfolding add_all note_all
  Shows-add_all l n [] s = s
  Shows-add_all l n (e ∷ es) s =
      Shows-add_all (add heap l e).0 (note heap me n e) es (Shows-add l n e s)

  -- If all keys of the heap have five words, then after any list of additions to a new leafset, in
  -- any order, each side of the leafset is the first four elements of the ordered list of all the
  -- hosts added on that side, and the leafset is well formed.
  pub add_all-Shows :
      (es : List Host)
      → Shows heap me
          (add_all heap (init me) es)
          (note_all heap me (record { above = []; below = [] }) es)
  add_all-Shows es =
      Shows-add_all (init me) (record { above = []; below = [] }) es
        (unfold init in
          record {
            valid = unfold init in init-IsLeafset heap me;
            own = refl;
            cw = refl;
            ccw = refl;
          })
