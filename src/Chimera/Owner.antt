-- ===== src/Chimera/Owner.antt =====
-- What Chimera::ClosestTo (lib/chimera/chimera.cpp) says of the whole leafset.
use arbore_experiment.Base.{ℕ, ◌+◌, ◌-◌, ◌≤◌, ◌<◌, ◌≡◌, refl, ◌↔◌, true, List, [], ◌∷◌, All, arith}
use arbore_experiment.Key.{Key, IsKey, gt, distance, to_bool}
use arbore_experiment.Key.Order.{value, gt_iff}
use arbore_experiment.Key.Distance.{half_value, value-distance, distance-IsKey}
use arbore_experiment.Host.{Host, Heap, key_of}
use arbore_experiment.Leafset.{get_cw_side, get_ccw_side}
use arbore_experiment.Leafset.Side.{Ascending}
use arbore_experiment.Leafset.Invariant.{ValidKeys, IsLeafset, cw_rank, key_of-IsKey}
use arbore_experiment.Routing.{get_cw_leafset, get_ccw_leafset}
use arbore_experiment.Chimera.{Node, my_key, owner_cw, owner_ccw, bool_ge, closest_to}

-- Keys between which the way along the numbers is not the longer way around the ring.
abbrev pub Straight : Key → Key → Type 0
Straight a b = (value a ≤ half_value + value b) × (value b ≤ half_value + value a)

to_bool-value : (a : Key) → (to_bool a ≡ true) ↔ (0 < value a)
unfolding to_bool value
to_bool-value [] = ground arith
to_bool-value (x ∷ xs) = ground (arith, to_bool-value xs)

module _ (heap : Heap) (key : Key) where
  pub far : Host → ℕ
  far h = value (distance key (key_of heap h))

  abbrev pub NotNearer : Host → Host → Type 0
  NotNearer me h = far me ≤ far h

  -- There is no host, or the key is that of the own host and not of the first.
  abbrev pub Alone : Host → List Host → Type 0
  Alone me [] = Unit
  Alone me (h ∷ hs) = (far me ≡ 0) × (0 < far h)

module _ (heap : Heap) (valid : ValidKeys heap) (key : Key) (is_key : IsKey key) (me : Host) where
  Straight-far :
      (h : Host)
      → Straight key (key_of heap h)
      → far heap key h ≡ (value key - cw_rank heap h) + (cw_rank heap h - value key)
  unfolding far cw_rank
  Straight-far h straight =
      omega (arith, value-distance key (key_of heap h) is_key (key_of-IsKey heap valid h))

  -- If a host in the order is not nearer than the own one, no later one is.
  behind_cw :
      (first : Host) (hs : List Host)
      → Straight key (key_of heap me)
      → Straight key (key_of heap first)
      → cw_rank heap me < cw_rank heap first
      → NotNearer heap key me first
      → Ascending (cw_rank heap) (cw_rank heap first) hs
      → All (λ h. Straight key (key_of heap h)) hs
      → All (NotNearer heap key me) hs
  behind_cw first [] sm s1 above held sorted straight = tt
  behind_cw first (h ∷ hs) sm s1 above held sorted straight =
      let here : NotNearer heap key me h =
        omega
          (arith, Straight-far me sm, Straight-far first s1, Straight-far h straight.0, sorted.0) in
      (here, behind_cw h hs sm straight.0 (omega (arith, sorted.0)) here sorted.1 straight.1)

  gt-far :
      (a b : Host)
      → (gt (distance key (key_of heap a)) (distance key (key_of heap b)) ≡ true)
        ↔ (far heap key b < far heap key a)
  unfolding far
  gt-far a b =
      gt_iff _ _ (distance-IsKey key _ is_key (key_of-IsKey heap valid a))
        (distance-IsKey key _ is_key (key_of-IsKey heap valid b))

  to_bool-far : (h : Host) → (to_bool (distance key (key_of heap h)) ≡ true) ↔ (0 < far heap key h)
  unfolding far
  to_bool-far h = to_bool-value (distance key (key_of heap h))

  owner_cw_iff :
      (hs : List Host)
      → Straight key (key_of heap me)
      → Ascending (cw_rank heap) (cw_rank heap me) hs
      → All (λ h. Straight key (key_of heap h)) hs
      → (owner_cw heap key (key_of heap me) hs ≡ true) ↔ All (NotNearer heap key me) hs
  unfolding owner_cw
  owner_cw_iff [] sm sorted straight = (λ e. tt, λ u. refl)
  owner_cw_iff (h ∷ hs) sm sorted straight = (
    (λ e.
        let held : NotNearer heap key me h = ground (arith, gt-far me h) in
        (held, behind_cw h hs sm straight.0 sorted.0 held sorted.1 straight.1)),
    (λ all. let held = all.0 in ground (arith, gt-far me h)),
  )

  owner_ccw_iff :
      (hs : List Host) → (owner_ccw heap key (key_of heap me) hs ≡ true) ↔ Alone heap key me hs
  unfolding owner_ccw bool_ge
  owner_ccw_iff [] = (λ e. tt, λ u. refl)
  owner_ccw_iff (h ∷ hs) = ground (arith, to_bool-far me, to_bool-far h)

-- If all keys have five words, the leafset is well formed and has the own host of the node, and
-- the key is at most half of the ring away, counted along the numbers, from the own key and from
-- every clockwise leaf, then ClosestTo is true exactly if no clockwise leaf is nearer to the key
-- than the node, and there is no counter-clockwise leaf or the distance of the key to the own one
-- is zero and that to the first counter-clockwise leaf is not.
pub closest_to_iff :
    (n : Node) (key : Key)
    → ValidKeys n.world.heap
    → IsLeafset n.world.heap n.routing.leafset
    → n.routing.leafset.me ≡ n.me
    → IsKey key
    → Straight key (my_key n)
    → All (λ h. Straight key (key_of n.world.heap h)) n.routing.leafset.leaves_cw
    → (closest_to key n ≡ true) ↔ (
        All (NotNearer n.world.heap key n.me) n.routing.leafset.leaves_cw
        × Alone n.world.heap key n.me n.routing.leafset.leaves_ccw)
unfolding closest_to my_key get_cw_leafset get_ccw_leafset get_cw_side get_ccw_side
closest_to_iff n key valid v own is_key sm cw =
    let left =
      owner_cw_iff n.world.heap valid key is_key n.me n.routing.leafset.leaves_cw sm
        (rw own at v.cw_sorted) cw in
    let right = owner_ccw_iff n.world.heap valid key is_key n.me n.routing.leafset.leaves_ccw in
    (
      (λ e. (left.0 (ground arith), right.0 (ground arith))),
      (λ all. let a = left.1 all.0 in let b = right.1 all.1 in ground arith),
    )
