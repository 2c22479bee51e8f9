-- ===== src/Leafset/Invariant.antt =====
-- The order and size of the leafset (lib/chimera/leafset.cpp), kept by every operation.
use arbore_experiment.Base.{
  ℕ, ◌+◌, ◌-◌, ◌≤◌, ◌<◌, ◌≡◌, ap, ◌↔◌, inl, inr, true, List, arith, ltb, if◌then◌else◌, length,
  take, Bool-cases, Option-cases,
}
use arbore_experiment.Key.{IsKey}
use arbore_experiment.Key.Order.{value, eq_iff, gt_iff, lt_iff, value-injective}
use arbore_experiment.Key.Distance.{max_value, value-le_max, zero_key-IsKey}
use arbore_experiment.Host.{Host, invalid, ref, Heap, key_of}
use arbore_experiment.Leafset.{
  Leafset, init, clear, key_update, same_key, key_lt, key_gt, add_side, add, remove_side, remove,
}
use arbore_experiment.Leafset.Side.{
  Ascending, insert, kept_side, remove_side-Ascending, add_side-insert,
}

-- Every host of the heap has a key of five words.
abbrev pub ValidKeys : Heap → Type 0
ValidKeys heap = (p : ℕ) → IsKey (heap p).key

pub key_of-IsKey : (heap : Heap) → ValidKeys heap → (h : Host) → IsKey (key_of heap h)
unfolding key_of
key_of-IsKey heap valid invalid = zero_key-IsKey
key_of-IsKey heap valid (ref p) = valid p

module _ (heap : Heap) where
  -- Where a host stands clockwise and counter-clockwise.
  unfoldable pub cw_rank : Host → ℕ
  cw_rank h = value (key_of heap h)

  unfoldable pub ccw_rank : Host → ℕ
  ccw_rank h = max_value - value (key_of heap h)

  pub record IsLeafset (l : Leafset) : Type 0 where
    pub cw_sorted : Ascending cw_rank (cw_rank l.me) l.leaves_cw
    pub cw_size : length l.leaves_cw ≤ 4
    pub ccw_sorted : Ascending ccw_rank (ccw_rank l.me) l.leaves_ccw
    pub ccw_size : length l.leaves_ccw ≤ 4

  pub init-IsLeafset : (me : Host) → IsLeafset (init me)
  unfolding init
  init-IsLeafset me = omega arith

  pub key_update-IsLeafset : (l : Leafset) (me : Host) → IsLeafset (key_update l me)
  unfolding key_update clear
  key_update-IsLeafset l me = omega arith

module _ (heap : Heap) (valid : ValidKeys heap) where
  is_key : (h : Host) → IsKey (key_of heap h)
  is_key = key_of-IsKey heap valid

  pub ccw_rank_lem : (h : Host) → ccw_rank heap h + cw_rank heap h ≡ max_value
  unfolding ccw_rank cw_rank
  ccw_rank_lem h = omega (arith, value-le_max (key_of heap h) (is_key h))

  same_key_iff : (a b : Host) → (same_key heap a b ≡ true) ↔ (cw_rank heap a ≡ cw_rank heap b)
  unfolding same_key cw_rank
  same_key_iff a b = (
    (λ e. ap value ((eq_iff (key_of heap a) (key_of heap b)).0 e)),
    (λ e. (eq_iff (key_of heap a) (key_of heap b)).1 (value-injective _ _ (is_key a) (is_key b) e)),
  )

  key_lt_iff : (a b : Host) → (key_lt heap a b ≡ true) ↔ (cw_rank heap a < cw_rank heap b)
  unfolding key_lt cw_rank
  key_lt_iff a b = lt_iff _ _ (is_key a) (is_key b)

  key_gt_iff : (a b : Host) → (key_gt heap a b ≡ true) ↔ (cw_rank heap b < cw_rank heap a)
  unfolding key_gt cw_rank
  key_gt_iff a b = gt_iff _ _ (is_key a) (is_key b)

  same_key_ccw : (a b : Host) → (same_key heap a b ≡ true) ↔ (ccw_rank heap a ≡ ccw_rank heap b)
  same_key_ccw a b = ground (arith, same_key_iff a b, ccw_rank_lem a, ccw_rank_lem b)

  key_gt_ccw : (a b : Host) → (key_gt heap a b ≡ true) ↔ (ccw_rank heap a < ccw_rank heap b)
  key_gt_ccw a b = ground (arith, key_gt_iff a b, ccw_rank_lem a, ccw_rank_lem b)

  add_cw :
      (e : Host) (l : List Host)
      → length l ≤ 4
      → (add_side (same_key heap) (key_lt heap) e l).0 ≡ take 4 (insert (cw_rank heap) e l)
  add_cw = add_side-insert (cw_rank heap) (same_key heap) (key_lt heap) same_key_iff key_lt_iff

  add_ccw :
      (e : Host) (l : List Host)
      → length l ≤ 4
      → (add_side (same_key heap) (key_gt heap) e l).0 ≡ take 4 (insert (ccw_rank heap) e l)
  add_ccw = add_side-insert (ccw_rank heap) (same_key heap) (key_gt heap) same_key_ccw key_gt_ccw

  -- An entry above the own key goes to the clockwise side, one below to the other; a side keeps
  -- the first four of the ordered insertion.
  pub add-sides :
      (l : Leafset) (e : Host)
      → IsLeafset heap l
      → ((add heap l e).0.me ≡ l.me)
        × ((add heap l e).0.leaves_cw ≡ (
            if ltb (cw_rank heap l.me) (cw_rank heap e)
            then take 4 (insert (cw_rank heap) e l.leaves_cw)
            else l.leaves_cw))
        × ((add heap l e).0.leaves_ccw ≡ (
            if ltb (ccw_rank heap l.me) (ccw_rank heap e)
            then take 4 (insert (ccw_rank heap) e l.leaves_ccw)
            else l.leaves_ccw))
  unfolding add
  add-sides l e v = ground (
    arith,
    same_key_iff l.me e,
    key_gt_iff e l.me,
    ccw_rank_lem e,
    ccw_rank_lem l.me,
    add_cw e l.leaves_cw,
    add_ccw e l.leaves_ccw,
  )

  pub add-IsLeafset : (l : Leafset) (e : Host) → IsLeafset heap l → IsLeafset heap (add heap l e).0
  add-IsLeafset l e v =
      let (me, cw, ccw) = add-sides l e v in
      let kept = kept_side (cw_rank heap) (cw_rank heap l.me) e l.leaves_cw v.cw_sorted v.cw_size in
      let kept' =
        kept_side (ccw_rank heap) (ccw_rank heap l.me) e l.leaves_ccw v.ccw_sorted v.ccw_size in
      record {
        cw_sorted = rw (me, cw) kept.0;
        cw_size = rw cw kept.1;
        ccw_sorted = rw (me, ccw) kept'.0;
        ccw_size = rw ccw kept'.1;
      }

  pub remove-IsLeafset :
      (l : Leafset) (e : Host) → IsLeafset heap l → IsLeafset heap (remove heap l e).0
  unfolding remove
  remove-IsLeafset l e v = elim (Bool-cases (same_key heap e l.me)) [
    | inl own ↦ rw own v
    | inr other ↦ elim (Option-cases (remove_side (same_key heap) e l.leaves_cw)) [
      | inr (r, gone) ↦
          let kept = remove_side-Ascending (cw_rank heap) _ _ e l.leaves_cw r gone v.cw_sorted in
          rw (other, gone)
            (record {
              cw_sorted = kept.0;
              cw_size = omega (arith, kept.1, v.cw_size);
              ccw_sorted = v.ccw_sorted;
              ccw_size = v.ccw_size;
            })
      | inl not_cw ↦ elim (Option-cases (remove_side (same_key heap) e l.leaves_ccw)) [
        | inl not_ccw ↦ rw (other, not_cw, not_ccw, remove) v
        | inr (r, gone) ↦
            let kept =
              remove_side-Ascending (ccw_rank heap) _ _ e l.leaves_ccw r gone v.ccw_sorted in
            rw (other, not_cw, gone, remove)
              (record {
                cw_sorted = v.cw_sorted;
                cw_size = v.cw_size;
                ccw_sorted = kept.0;
                ccw_size = omega (arith, kept.1, v.ccw_size);
              })
      ]
    ]
  ]
