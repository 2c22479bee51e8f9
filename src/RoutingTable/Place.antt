-- ===== src/RoutingTable/Place.antt =====
-- `add` and `remove` of the routing table (lib/chimera/routing_table.cpp).
use arbore_experiment.Base.{
  ℕ, zero, suc, ◌+◌, ◌≤◌, ◌<◌, ◌≡◌, refl, ap, subst, ◌∙◌, ◌≢◌, ◌⊎◌, inl, inr, Bool, true, false,
  ◌&&◌, arith, ◌==◌, length, if◌then◌else◌, Bool-cases,
}
use arbore_experiment.Key.{eq}
use arbore_experiment.Key.Order.{eq_iff}
use arbore_experiment.Host.{Host, invalid, ref, Heap, key_of, is_valid, same}
use arbore_experiment.RoutingTable.{
  Result, ok, out_of_range, no_fuel, ◌>>=◌, RoutingTable, get_entry, set_entry, Placement, placed,
  already, full, find_place, pick, is_worse, find_worst_entry, finish_add, add, remove_from, remove,
  row_of, column_of,
}
use arbore_experiment.RoutingTable.Cells.{get_entry-total}
use arbore_experiment.RoutingTable.Invariant.{IsTable, row_of-InRange, set_entry-IsTable}

module _ (heap : Heap) (rt : RoutingTable) (i j : ℕ) (entry : Host) where
  abbrev Holds : ℕ → Host → Type 0
  Holds k h = (k < 3) × (get_entry rt i j k ≡ ok h)

  -- What the search for a place has found, from the k-th place on.
  abbrev Finds : ℕ → Result Placement → Type 0
  Finds k (ok (placed rt')) = (k' : ℕ) × Holds k' invalid × (rt' ≡ set_entry rt i j k' entry)
  Finds k (ok already) =
      (k' : ℕ) × (h : Host) × Holds k' h
      × (is_valid h ≡ true)
      × (eq (key_of heap h) (key_of heap entry) ≡ true)
  Finds k (ok full) =
      (k' : ℕ) → k ≤ k' → k' < 3 → (h : Host) × (get_entry rt i j k' ≡ ok h) × (is_valid h ≡ true)
  Finds k out_of_range = ⊥
  Finds k no_fuel = ⊥

  same-invalid : (h : Host) → same h invalid ≡ true → h ≡ invalid
  unfolding same
  same-invalid invalid e = refl
  same-invalid (ref p) e = absurd (ground arith)

  not_same-invalid : (h : Host) → same h invalid ≡ false → is_valid h ≡ true
  unfolding same is_valid
  not_same-invalid invalid e = absurd (ground arith)
  not_same-invalid (ref p) e = refl

  -- A valid host that is not the entry puts the search one place on.
  Finds-suc :
      (k : ℕ) (h : Host) (r : Result Placement)
      → get_entry rt i j k ≡ ok h
      → is_valid h ≡ true
      → Finds (suc k) r
      → Finds k r
  Finds-suc k h (ok (placed rt')) read is f = f
  Finds-suc k h (ok already) read is f = f
  Finds-suc k h (ok full) read is f = λ k' lo hi. elim (Bool-cases (k' == k)) [
    | inl here ↦
        let e : k ≡ k' = ground arith in
        subst (λ (t : ℕ). (x : Host) × (get_entry rt i j t ≡ ok x) × (is_valid x ≡ true)) e
          (h, read, is)
    | inr later ↦ f k' (ground arith) hi
  ]
  Finds-suc k h out_of_range read is f = f
  Finds-suc k h no_fuel read is f = f

  find_place-Finds :
      (n k : ℕ)
      → k + n ≡ 3
      → length rt.table ≡ 1920
      → i < 40
      → j < 16
      → Finds k (find_place heap n rt i j k entry)
  unfolding find_place
  find_place-Finds zero k e size hi hj = λ k' lo hi'. absurd (omega arith)
  find_place-Finds (suc n) k e size hi hj =
      let (h, read) = get_entry-total rt i j k size (omega arith) in
      rw read (elim (Bool-cases (same h invalid)) [
        | inl free ↦ rw free (k, (omega arith, read ∙ ap ok (same-invalid h free)), refl)
        | inr taken ↦
            let is = not_same-invalid h taken in
            elim (Bool-cases (eq (key_of heap h) (key_of heap entry))) [
              | inl there ↦ rw (taken, is, there) (k, h, (omega arith, read), is, there)
              | inr other ↦
                  rw (taken, is, other)
                    (Finds-suc k h _ read is (find_place-Finds n (suc k) (omega arith) size hi hj))
            ]
      ])

-- A choice among three valid entries is one of them.
pick-lt :
    (replaces : Host → Host → Bool) (rt : RoutingTable) (i j n k chosen : ℕ)
    → k + n ≡ 3
    → ((k' : ℕ) → k' < 3 → (h : Host) × (get_entry rt i j k' ≡ ok h) × (is_valid h ≡ true))
    → (chosen < 3) ⊎ ((chosen ≡ 3) × (k < 3))
    → (w : ℕ) × (pick replaces n rt i j k chosen ≡ ok w) × (w < 3)
unfolding pick
pick-lt replaces rt i j zero k chosen e valid c = (chosen, refl, omega arith)
pick-lt replaces rt i j (suc n) k chosen e valid c =
    let (h, read, is) = valid k (omega arith) in
    rw (read, is)
      (elim (Bool-cases (chosen == 3)) [
        | inl none_yet ↦
            rw none_yet
              (pick-lt replaces rt i j n (suc k) k (omega arith) valid (inl (omega arith)))
        | inr some_yet ↦
            let (h', read', is') = valid chosen (ground arith) in
            rw (some_yet, read')
              (pick-lt replaces rt i j n (suc k) (if replaces h' h then k else chosen) (omega arith)
                valid (inl (ground arith)))
      ])

module _ (heap : Heap) (rt : RoutingTable) (entry : Host) where
  -- The row and the column of the entry.
  abbrev pub row : ℕ
  row = row_of heap rt (key_of heap entry)

  abbrev pub column : ℕ
  column = column_of heap rt (key_of heap entry)

  -- Some valid host in the place of the entry has its key.
  abbrev IsPresent : Type 0
  IsPresent =
      (k : ℕ) × (h : Host) × (k < 3)
      × (get_entry rt row column k ≡ ok h)
      × (is_valid h ≡ true)
      × (key_of heap h ≡ key_of heap entry)

  -- The entry is refused because its key is the own key or stands in its place already, or it is
  -- written to one of the three cells of its place, and no other cell changes.
  abbrev pub IsAdded : Result (RoutingTable × Bool) → Type 0
  IsAdded r =
      ((r ≡ ok (rt, false)) × ((key_of heap rt.me ≡ key_of heap entry) ⊎ IsPresent))
      ⊎ ((k : ℕ) × (k < 3) × (r ≡ ok (set_entry rt row column k entry, true)))

  finish_add-IsAdded :
      (r : Result Placement)
      → Finds heap rt row column entry 0 r
      → IsAdded (r >>= finish_add heap rt row column entry)
  unfolding finish_add find_worst_entry
  finish_add-IsAdded (ok (placed rt')) (k, (lt, read), is) = inr (k, lt, rw is refl)
  finish_add-IsAdded (ok already) (k, h, (lt, read), is, there) =
      inl (refl, inr (k, h, lt, read, is, (eq_iff _ _).0 there))
  finish_add-IsAdded (ok full) f =
      let (w, picked, lt) =
        pick-lt (is_worse heap) rt row column 3 0 3 refl (λ k' hi. f k' (omega arith) hi)
          (inr (refl, omega arith)) in
      inr (w, lt, rw picked refl)
  finish_add-IsAdded out_of_range f = absurd f
  finish_add-IsAdded no_fuel f = absurd f

  -- On a well-formed table `add` returns without an exception: it refuses the entry, which then
  -- has the own key or a key that stands in its place already, or it writes the entry to one of
  -- the three cells of its place and to no other cell.
  pub add-IsAdded : IsTable heap rt → IsAdded (add heap rt entry)
  unfolding add
  add-IsAdded t =
      let r = row_of-InRange heap rt (key_of heap entry) 0 (omega arith) in
      elim (Bool-cases (eq (key_of heap rt.me) (key_of heap entry))) [
        | inl own ↦ rw own (inl (refl, inl ((eq_iff _ _).0 own)))
        | inr other ↦ rw other (
            finish_add-IsAdded (find_place heap 3 rt row column 0 entry)
              (find_place-Finds heap rt row column entry 3 0 refl t.size r.row r.column))
      ]

  pub add-IsTable :
      IsTable heap rt
      → (rt' : RoutingTable) × (b : Bool) × (add heap rt entry ≡ ok (rt', b)) × IsTable heap rt'
  add-IsTable t = elim (add-IsAdded t) [
    | inl refused ↦ (rt, false, refused.0, t)
    | inr (k, lt, stored) ↦
        let r = row_of-InRange heap rt (key_of heap entry) k lt in
        (
          set_entry rt row column k entry,
          true,
          stored,
          set_entry-IsTable heap rt row column k entry t r (λ _. (refl, refl)),
        )
  ]

  -- A cell of the place, from the k-th on, that has the key of the entry.
  abbrev HasKey : ℕ → Host → Type 0
  HasKey k h =
      (k < 3)
      × (get_entry rt row column k ≡ ok h)
      × (is_valid h ≡ true)
      × (key_of heap h ≡ key_of heap entry)

  -- One cell of the place that has the key is cleared; where there is none, nothing is.
  abbrev pub IsRemoved : ℕ → Result (RoutingTable × Bool) → Type 0
  IsRemoved lo r =
      ((r ≡ ok (rt, false)) × ¬ ((k : ℕ) × (h : Host) × (lo ≤ k) × HasKey k h))
      ⊎ ((k : ℕ) × (h : Host) × HasKey k h × (r ≡ ok (set_entry rt row column k invalid, true)))

  IsRemoved-suc :
      (lo : ℕ) (h : Host) (r : Result (RoutingTable × Bool))
      → get_entry rt row column lo ≡ ok h
      → ¬ HasKey lo h
      → IsRemoved (suc lo) r
      → IsRemoved lo r
  IsRemoved-suc lo h r read miss (inr there) = inr there
  IsRemoved-suc lo h r read miss (inl (e, none_later)) = inl (
    e,
    λ p. elim (Bool-cases (p.0 == lo)) [
      | inl here ↦ miss (ground (arith, p.2, p.3, read, here))
      | inr later ↦ none_later (p.0, p.1, ground arith, p.3)
    ],
  )

  remove_from-IsRemoved :
      (n k : ℕ)
      → k + n ≡ 3
      → IsTable heap rt
      → IsRemoved k (remove_from heap n rt row column k entry)
  unfolding remove_from
  remove_from-IsRemoved zero k e t = inl (refl, λ p. absurd (omega (arith, p.2, p.3.0)))
  remove_from-IsRemoved (suc n) k e t =
      let r = row_of-InRange heap rt (key_of heap entry) k (omega arith) in
      let (h, read) = get_entry-total rt row column k t.size r in
      rw read (elim (Bool-cases (is_valid h && eq (key_of heap h) (key_of heap entry))) [
        | inl hit ↦
            rw hit
              (inr (k, h, (omega arith, read, ground arith, (eq_iff _ _).0 (ground arith)), refl))
        | inr miss ↦ rw miss (
            IsRemoved-suc k h _ read
              (λ p. ground (arith, p.2, (eq_iff (key_of heap h) (key_of heap entry)).1 p.3))
              (remove_from-IsRemoved n (suc k) (omega arith) t))
      ])

  -- On a well-formed table, for an entry under another key than the own, `remove` returns without
  -- an exception: it clears one cell of the place of the entry that has its key, or no cell of
  -- that place has the key and nothing changes.
  pub remove-IsRemoved :
      IsTable heap rt → key_of heap rt.me ≢ key_of heap entry → IsRemoved 0 (remove heap rt entry)
  unfolding remove
  remove-IsRemoved t other =
      let differ : eq (key_of heap rt.me) (key_of heap entry) ≡ false =
        ground (arith, eq_iff (key_of heap rt.me) (key_of heap entry)) in
      rw differ (remove_from-IsRemoved 3 0 refl t)

  remove_own : key_of heap rt.me ≡ key_of heap entry → remove heap rt entry ≡ ok (rt, false)
  unfolding remove
  remove_own same = ground (arith, eq_iff (key_of heap rt.me) (key_of heap entry))

  pub remove-IsTable :
      IsTable heap rt
      → (rt' : RoutingTable) × (b : Bool) × (remove heap rt entry ≡ ok (rt', b)) × IsTable heap rt'
  remove-IsTable t = elim (Bool-cases (eq (key_of heap rt.me) (key_of heap entry))) [
    | inl own ↦ (rt, false, remove_own ((eq_iff _ _).0 own), t)
    | inr other ↦ elim (remove-IsRemoved t (λ e. ground (arith, (eq_iff _ _).1 e))) [
      | inl kept ↦ (rt, false, kept.0, t)
      | inr (k, h, has, cleared) ↦
          let r = row_of-InRange heap rt (key_of heap entry) k has.0 in
          (
            set_entry rt row column k invalid,
            true,
            cleared,
            set_entry-IsTable heap rt row column k invalid t r
                (unfold is_valid in λ (e : false ≡ true). absurd (ground arith)),
          )
    ]
  ]
