-- ===== src/RoutingTable/Search.antt =====
-- The two walks of routeLookup (lib/chimera/routing_table.cpp): they end, and what they read.
use arbore_experiment.Base.{
  ℕ, zero, suc, ◌+◌, ◌-◌, ◌*◌, ◌<◌, ◌≡◌, refl, ◌≢◌, ◌⊎◌, inl, inr, Bool, true, false, arith, ltb,
  ◌==◌, if◌then◌else◌, Bool-cases,
}
use arbore_experiment.Host.{Host, invalid, ref, Heap, is_valid, same}
use arbore_experiment.RoutingTable.{
  Result, ok, out_of_range, no_fuel, ◌>>=◌, RoutingTable, at, get_entry, pick, is_better,
  find_best_entry,
}
use arbore_experiment.RoutingTable.Walk.{Cursor, probe, move_cw, move_ccw, walk_cw, walk_ccw}

pub same-invalid : (h : Host) → is_valid h ≡ true → same h invalid ≡ false
unfolding same is_valid
same-invalid invalid e = absurd (ground arith)
same-invalid (ref p) e = refl

-- Every outcome but one of these two reads as `no_fuel`.
abbrev pub Ends {ℓ} : {A : Type ℓ} → Result A → Type 0
Ends (ok a) = Unit
Ends out_of_range = Unit
Ends no_fuel = ⊥

-- A choice of an entry is out of range, or gives no entry, or a valid one.
abbrev Picks : RoutingTable → ℕ → ℕ → Result ℕ → Type 0
Picks rt i j (ok w) = (w ≡ 3) ⊎ ((h : Host) × (get_entry rt i j w ≡ ok h) × (is_valid h ≡ true))
Picks rt i j out_of_range = Unit
Picks rt i j no_fuel = ⊥

Result-cases {ℓ} :
    {A : Type ℓ} (r : Result A) → ((a : A) × (r ≡ ok a)) ⊎ ((r ≡ out_of_range) ⊎ (r ≡ no_fuel))
Result-cases (ok a) = inl (a, refl)
Result-cases out_of_range = inr (inl refl)
Result-cases no_fuel = inr (inr refl)

get_entry-ne-no_fuel : (rt : RoutingTable) (i j k : ℕ) → get_entry rt i j k ≢ no_fuel
unfolding get_entry at
get_entry-ne-no_fuel rt i j k e = ground arith

pick-Picks :
    (replaces : Host → Host → Bool) (rt : RoutingTable) (i j n k chosen : ℕ)
    → Picks rt i j (ok chosen)
    → Picks rt i j (pick replaces n rt i j k chosen)
unfolding pick
pick-Picks replaces rt i j zero k chosen c = c
pick-Picks replaces rt i j (suc n) k chosen c = elim (Result-cases (get_entry rt i j k)) [
  | inr (inl out) ↦ rw out tt
  | inr (inr never) ↦ absurd (get_entry-ne-no_fuel rt i j k never)
  | inl (h, read) ↦ elim (Bool-cases (is_valid h)) [
    | inr null ↦ rw (read, null) c
    | inl is ↦ elim (Bool-cases (chosen == 3)) [
      | inl none_yet ↦
          rw (read, is, none_yet) (pick-Picks replaces rt i j n (suc k) k (inr (h, read, is)))
      | inr some_yet ↦ elim (Result-cases (get_entry rt i j chosen)) [
        | inr (inl out) ↦ rw (read, is, some_yet, out) tt
        | inr (inr never) ↦ absurd (get_entry-ne-no_fuel rt i j chosen never)
        | inl (h', read') ↦ elim (Bool-cases (replaces h' h)) [
          | inl better ↦
              rw (read, is, some_yet, read', better)
                (pick-Picks replaces rt i j n (suc k) k (inr (h, read, is)))
          | inr worse ↦
              rw (read, is, some_yet, read', worse) (pick-Picks replaces rt i j n (suc k) chosen c)
        ]
      ]
    ]
  ]
]

-- A probe stays in its place and loses no candidate, or is out of range.
abbrev pub Keeps : Cursor → Result Cursor → Type 0
Keeps c (ok c') =
    (c'.i ≡ c.i) × (c'.j ≡ c.j) × ((is_valid c'.best ≡ true) ⊎ (is_valid c.best ≡ false))
Keeps c out_of_range = Unit
Keeps c no_fuel = ⊥

Keeps-refl : (c : Cursor) → Keeps c (ok c)
Keeps-refl c = elim (Bool-cases (is_valid c.best)) [
  | inl is ↦ (refl, refl, inl is)
  | inr null ↦ (refl, refl, inr null)
]

probe-Keeps : (heap : Heap) (rt : RoutingTable) (c : Cursor) → Keeps c (probe heap rt c)
unfolding probe find_best_entry
probe-Keeps heap rt c =
    from (pick (is_better heap) 3 rt c.i c.j 0 3)
      (pick-Picks (is_better heap) rt c.i c.j 3 0 3 (inl refl))
  where
    from :
        (r : Result ℕ)
        → Picks rt c.i c.j r
        → Keeps c (
            r >>= λ index.
            if ltb index 3
            then (get_entry rt c.i c.j index >>= λ h. ok (record c { best = h }))
            else ok c)
    from (ok w) (inl none_yet) = rw none_yet (Keeps-refl c)
    from (ok w) (inr (h, read, is')) = elim (Bool-cases (ltb w 3)) [
      | inl lt ↦ rw (lt, read) (refl, refl, inl is')
      | inr ge ↦ rw ge (Keeps-refl c)
    ]
    from out_of_range p = tt
    from no_fuel p = absurd p

invalid-same : (h : Host) → same h invalid ≡ true → is_valid h ≡ false
unfolding same is_valid
invalid-same invalid e = refl
invalid-same (ref p) e = absurd (ground arith)

-- Rounds that the loops need at most from a place.
abbrev rounds_cw : Cursor → ℕ
rounds_cw c = (40 - c.i) * 17 + (16 - c.j)

abbrev pub rounds_ccw : Cursor → ℕ
rounds_ccw c = (40 - c.i) * 17 + c.j

-- A loop has found its candidate, or is in the table with fewer rounds than before left.
abbrev pub Nearer : (Cursor → ℕ) → Cursor → Cursor → Type 0
Nearer rounds c c' =
    (is_valid c'.best ≡ true) ⊎ ((c'.i < 40) × (c'.j < 16) × (rounds c' < rounds c))

module _ (heap : Heap) (rt : RoutingTable) (me : is_valid rt.me ≡ true) where
  move_cw-Nearer : (c : Cursor) → c.i < 40 → c.j < 16 → Nearer rounds_cw c (move_cw heap rt c)
  unfolding move_cw
  move_cw-Nearer c hi hj = ground arith

  pub move_ccw-Nearer :
      (c : Cursor) → c.i < 40 → c.j < 16 → Nearer rounds_ccw c (move_ccw heap rt c)
  unfolding move_ccw
  move_ccw-Nearer c hi hj = ground arith

  walk_cw-found :
      (n : ℕ) (c : Cursor) → 0 < n → is_valid c.best ≡ true → walk_cw heap n rt c ≡ ok c.best
  unfolding walk_cw
  walk_cw-found zero c h is = absurd (omega arith)
  walk_cw-found (suc n) c h is = rw (same-invalid c.best is) refl

  pub walk_ccw-found :
      (n : ℕ) (cw : Host) (c : Cursor)
      → 0 < n
      → is_valid c.best ≡ true
      → walk_ccw heap n rt cw c ≡ ok c.best
  unfolding walk_ccw
  walk_ccw-found zero cw c h is = absurd (omega arith)
  walk_ccw-found (suc n) cw c h is = rw (same-invalid c.best is) refl

  -- The place is probed, or not.
  pub probe_if-Keeps : (b : Bool) (c : Cursor) → Keeps c (if b then probe heap rt c else ok c)
  probe_if-Keeps true c = probe-Keeps heap rt c
  probe_if-Keeps false c = Keeps-refl c

  -- What a round leaves is a candidate, or a place with fewer rounds left.
  pub Keeps-Nearer :
      (rounds : ℕ → ℕ → ℕ) (old c c' : Cursor)
      → Keeps c (ok c')
      → Nearer (λ x. rounds x.i x.j) old c
      → Nearer (λ x. rounds x.i x.j) old c'
  Keeps-Nearer rounds old c c' (ei, ej, inl is) near = inl is
  Keeps-Nearer rounds old c c' (ei, ej, inr null) (inl is) = absurd (ground arith)
  Keeps-Nearer rounds old c c' (ei, ej, inr null) (inr (hi, hj, less)) =
      inr (rw (ei, ej) (hi, hj, less))

  -- The clockwise loop ends.
  pub walk_cw-Ends :
      (n : ℕ) (c : Cursor) → c.i < 40 → c.j < 16 → rounds_cw c < n → Ends (walk_cw heap n rt c)
  unfolding walk_cw
  walk_cw-Ends zero c hi hj h = absurd (omega arith)
  walk_cw-Ends (suc n) c hi hj h = elim (Bool-cases (same c.best invalid)) [
    | inr found ↦ rw found tt
    | inl searching ↦ rw searching (
        from
          (if is_valid (move_cw heap rt c).best
            then probe heap rt (move_cw heap rt c)
            else ok (move_cw heap rt c))
          (probe_if-Keeps _ (move_cw heap rt c))
          (λ c' near. elim near [
            | inl is ↦ rw (walk_cw-found n c' (omega arith) is) tt
            | inr (hi', hj', less) ↦ walk_cw-Ends n c' hi' hj' (omega arith)
          ]))
  ]
    where
      from :
          (r : Result Cursor)
          → Keeps (move_cw heap rt c) r
          → ((c' : Cursor) → Nearer rounds_cw c c' → Ends (walk_cw heap n rt c'))
          → Ends (r >>= walk_cw heap n rt)
      from (ok c') k ih = ih c' (
          Keeps-Nearer (λ i j. (40 - i) * 17 + (16 - j)) c (move_cw heap rt c) c' k
            (move_cw-Nearer c hi hj))
      from out_of_range k ih = tt
      from no_fuel k ih = absurd k
