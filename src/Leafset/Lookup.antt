-- ===== src/Leafset/Lookup.antt =====
-- Which hosts the leafset (lib/chimera/leafset.cpp) finds, and what `remove` does to that.
use arbore_experiment.Base.{
  ℕ, ◌-◌, ◌≤◌, ◌<◌, ◌≡◌, refl, sym, ap, ◌∙◌, inl, inr, true, false, Option, none, some, List, [],
  ◌∷◌, arith, if◌then◌else◌, Bool-cases, Option-cases,
}
use arbore_experiment.Key.{Key, IsKey, eq}
use arbore_experiment.Key.Order.{value, eq_iff}
use arbore_experiment.Key.Distance.{max_value, value-le_max}
use arbore_experiment.Host.{Host, Heap, key_of}
use arbore_experiment.Leafset.{Leafset, same_key, remove_side, remove, find_key, last, route_lookup}
use arbore_experiment.Leafset.Side.{Ascending}
use arbore_experiment.Leafset.Invariant.{ValidKeys, key_of-IsKey, IsLeafset, cw_rank, ccw_rank}

module _ (heap : Heap) where
  -- The leaf with a key, on either side.
  unfoldable pub find_leaf : Leafset → Key → Option Host
  find_leaf l k = elim (find_key heap k l.leaves_cw) [
    | some h ↦ some h
    | none ↦ find_key heap k l.leaves_ccw
  ]

  find_key-key :
      (k : Key) (l : List Host) (h : Host) → find_key heap k l ≡ some h → key_of heap h ≡ k
  unfolding find_key
  find_key-key k [] h e = absurd (ground arith)
  find_key-key k (x ∷ xs) h e = elim (Bool-cases (eq k (key_of heap x))) [
    | inl hit ↦
        let is : x ≡ h = ground arith in
        ap (key_of heap) (sym is) ∙ sym ((eq_iff k (key_of heap x)).0 hit)
    | inr miss ↦ find_key-key k xs h (ground arith)
  ]

  last-some : (h : Host) (l : List Host) → (r : Host) × (last (h ∷ l) ≡ some r)
  unfolding last
  last-some h [] = (h, refl)
  last-some h (x ∷ xs) = last-some x xs

  -- A key that equals two keys makes these equal, and equal keys test alike.
  eq_meet : (k a b : Key) → eq k a ≡ true → eq k b ≡ true → eq a b ≡ true
  eq_meet k a b ha hb = (eq_iff a b).1 (sym ((eq_iff k a).0 ha) ∙ (eq_iff k b).0 hb)

  eq_alike : (k a b : Key) → eq a b ≡ true → eq k a ≡ eq k b
  eq_alike k a b h = ap (eq k) ((eq_iff a b).0 h)

  find_key-not_removed :
      (k : Key) (e : Host) (l : List Host)
      → remove_side (same_key heap) e l ≡ none
      → find_key heap k l ≡ (if eq k (key_of heap e) then none else find_key heap k l)
  unfolding find_key remove_side same_key
  find_key-not_removed k e [] h = ground arith
  find_key-not_removed k e (x ∷ xs) h =
      ground (arith, find_key-not_removed k e xs, eq_meet k (key_of heap e) (key_of heap x))

-- A side by the rank of its keys.
module _ (heap : Heap) (rank : Key → ℕ) where
  abbrev host_rank : Host → ℕ
  host_rank h = rank (key_of heap h)

  rank_of_eq : (a b : Key) → eq a b ≡ true → rank a ≡ rank b
  rank_of_eq a b h = ap rank ((eq_iff a b).0 h)

  -- What is ranked at or below the bound is not on the side.
  find_key_low :
      (k : Key) (lo : ℕ) (l : List Host)
      → rank k ≤ lo
      → Ascending host_rank lo l
      → find_key heap k l ≡ none
  unfolding find_key
  find_key_low k lo [] h a = refl
  find_key_low k lo (x ∷ xs) h a = elim (Bool-cases (eq k (key_of heap x))) [
    | inl hit ↦ absurd (omega (arith, rank_of_eq k (key_of heap x) hit, a.0))
    | inr miss ↦ rw miss (find_key_low k (host_rank x) xs (omega arith) a.1)
  ]

  find_key-remove_side :
      (k : Key) (e : Host) (lo : ℕ) (l r : List Host)
      → remove_side (same_key heap) e l ≡ some r
      → Ascending host_rank lo l
      → find_key heap k r ≡ (if eq k (key_of heap e) then none else find_key heap k l)
  unfolding find_key remove_side same_key
  find_key-remove_side k e lo [] r h a = absurd (ground arith)
  find_key-remove_side k e lo (x ∷ xs) r h a =
      elim (Bool-cases (eq (key_of heap e) (key_of heap x))) [
        | inl hit ↦
            let is : xs ≡ r = ground arith in
            rw (← is, eq_alike heap k (key_of heap e) (key_of heap x) hit)
              (ground (arith, find_key_low k (host_rank x) xs, rank_of_eq k (key_of heap x)))
        | inr miss ↦ elim (Option-cases (remove_side (same_key heap) e xs)) [
          | inl gone ↦ absurd (ground arith)
          | inr (r', left) ↦
              let is : x ∷ r' ≡ r = ground arith in
              rw (← is) (
                ground (
                  arith,
                  find_key-remove_side k e (host_rank x) xs r' left a.1,
                  eq_meet heap k (key_of heap e) (key_of heap x),
                ))
        ]
      ]

  removed_above :
      (e : Host) (lo : ℕ) (l r : List Host)
      → remove_side (same_key heap) e l ≡ some r
      → Ascending host_rank lo l
      → lo < host_rank e
  unfolding remove_side same_key
  removed_above e lo [] r h a = absurd (ground arith)
  removed_above e lo (x ∷ xs) r h a = elim (Bool-cases (eq (key_of heap e) (key_of heap x))) [
    | inl hit ↦ omega (arith, rank_of_eq (key_of heap e) (key_of heap x) hit, a.0)
    | inr miss ↦ elim (Option-cases (remove_side (same_key heap) e xs)) [
      | inl gone ↦ absurd (ground arith)
      | inr (r', left) ↦ omega (arith, removed_above e (host_rank x) xs r' left a.1, a.0)
    ]
  ]

module _ (heap : Heap) (valid : ValidKeys heap) where
  ccw : Key → ℕ
  ccw k = max_value - value k

  -- A key that has a place on the clockwise side has none on the other.
  not_on_ccw :
      (l : Leafset) (k : Key)
      → IsKey k
      → IsLeafset heap l
      → cw_rank heap l.me < value k
      → find_key heap k l.leaves_ccw ≡ none
  unfolding ccw cw_rank ccw_rank
  not_on_ccw l k hk v h =
      find_key_low heap ccw k (ccw_rank heap l.me) l.leaves_ccw (omega (arith, value-le_max k hk))
        v.ccw_sorted

  -- If the leafset is well formed, all keys of the heap have five words, and the removed host does
  -- not have the own key, then after `remove` no leaf has the key of that host, and every other
  -- key is found as before.
  pub find_leaf-remove :
      (l : Leafset) (e : Host) (k : Key)
      → IsLeafset heap l
      → same_key heap e l.me ≡ false
      → find_leaf heap (remove heap l e).0 k
        ≡ (if eq k (key_of heap e) then none else find_leaf heap l k)
  unfolding remove find_leaf cw_rank ccw_rank ccw
  find_leaf-remove l e k v other = elim (Option-cases (remove_side (same_key heap) e l.leaves_cw)) [
    | inr (r, gone) ↦
        let above = removed_above heap value e _ l.leaves_cw r gone v.cw_sorted in
        rw (other, gone)
          (ground (
            arith,
            find_key-remove_side heap value k e (cw_rank heap l.me) l.leaves_cw r gone v.cw_sorted,
            not_on_ccw l (key_of heap e) (key_of-IsKey heap valid e) v above,
            eq_iff k (key_of heap e),
          ))
    | inl not_cw ↦ elim (Option-cases (remove_side (same_key heap) e l.leaves_ccw)) [
      | inr (r, gone) ↦
          rw (other, not_cw, gone, remove)
            (ground (
              arith,
              find_key-not_removed heap k e l.leaves_cw not_cw,
              find_key-remove_side heap ccw k e (ccw_rank heap l.me) l.leaves_ccw r gone
                  v.ccw_sorted,
            ))
      | inl not_ccw ↦
          rw (other, not_cw, not_ccw, remove)
            (ground (
              arith,
              find_key-not_removed heap k e l.leaves_cw not_cw,
              find_key-not_removed heap k e l.leaves_ccw not_ccw,
            ))
    ]
  ]

-- routeLookup of the leafset says *inLeafset exactly if a leaf has the key, and then its answer is
-- the first leaf, clockwise side first, that has it.
pub route_lookup-find_leaf :
    (heap : Heap) (l : Leafset) (k : Key)
    → find_leaf heap l k
      ≡ (if (route_lookup heap l k).1 then some (route_lookup heap l k).0 else none)
unfolding route_lookup find_leaf
route_lookup-find_leaf heap l k = elim (Option-cases (find_key heap k l.leaves_cw)) [
  | inr (h, e) ↦ rw (e, route_lookup, find_leaf)
  | inl e ↦ elim (Option-cases (find_key heap k l.leaves_ccw)) [
    | inr (h, e') ↦ rw (e, e', route_lookup, find_leaf)
    | inl e' ↦ ground arith
  ]
]

-- A leaf that is found has the key that was asked for.
find_leaf-key :
    (heap : Heap) (l : Leafset) (k : Key) (h : Host)
    → find_leaf heap l k ≡ some h
    → key_of heap h ≡ k
unfolding find_leaf
find_leaf-key heap l k h e =
    ground (arith, find_key-key heap k l.leaves_cw h, find_key-key heap k l.leaves_ccw h)
