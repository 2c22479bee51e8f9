-- ===== src/RoutingTable/Throws.antt =====
-- Where the clockwise walk of routeLookup (lib/chimera/routing_table.cpp) leaves the vector.
use arbore_experiment.Base.{
  ℕ, zero, suc, ◌-◌, ◌≤◌, ◌<◌, ◌≡◌, refl, ap, ◌∙◌, ◌≢◌, inl, inr, Bool, true, false, List, [], ◌∷◌,
  none, arith, ◌==◌, length, get_elem?, Bool-cases,
}
use arbore_experiment.Key.{Key, eq}
use arbore_experiment.Key.Order.{eq_iff}
use arbore_experiment.RoutingTable.Cells.{digit-lt}
use arbore_experiment.Host.{Host, invalid, Heap, key_of, is_valid, same}
use arbore_experiment.RoutingTable.{
  ok, out_of_range, RoutingTable, outcome, cell, at, get_entry, pick, find_best_entry, row_of,
  column_of,
}
use arbore_experiment.RoutingTable.Walk.{
  own_column, probe, move_cw, walk_cw, closest, perfect_match, route_lookup,
}

get_elem?-past : (l : List Host) (n : ℕ) → length l ≤ n → get_elem? l n ≡ none
get_elem?-past [] n h = refl
get_elem?-past (x ∷ xs) zero h = absurd (omega arith)
get_elem?-past (x ∷ xs) (suc n) h = get_elem?-past xs n (omega arith)

-- The column 16 of an entry is the column 0 of the next.
past_end-next : (rt : RoutingTable) (i k : ℕ) → get_entry rt i 16 k ≡ get_entry rt i 0 (suc k)
unfolding get_entry
past_end-next rt i k = ap (at rt.table) (omega arith)

past_end-out :
    (rt : RoutingTable) (i : ℕ) → length rt.table ≡ 1920 → get_entry rt i 16 2 ≡ out_of_range
unfolding get_entry at
past_end-out rt i size = ap outcome (get_elem?-past rt.table (cell i 16 2) (omega arith))

module _ (heap : Heap) (rt : RoutingTable) (i : ℕ) (h1 h2 : Host) (size : length rt.table ≡ 1920)
    (read1 : get_entry rt i 0 1 ≡ ok h1) (is1 : is_valid h1 ≡ true)
    (read2 : get_entry rt i 0 2 ≡ ok h2) (is2 : is_valid h2 ≡ true) where
  -- The first two entries of the column 16 are the last two of the column 0, and the third lies
  -- outside of the vector.
  best_past_end : find_best_entry heap rt i 16 ≡ out_of_range
  unfolding find_best_entry pick
  best_past_end =
      let e0 = past_end-next rt i 0 ∙ read1 in
      let e1 = past_end-next rt i 1 ∙ read2 in rw (e0, is1, e1, is2, past_end-out rt i size) refl

  move_to_end :
      (j : ℕ)
      → j ≡ 15
      → move_cw heap rt (record { i = i; j = j; best = invalid })
        ≡ record { i = i; j = 16; best = rt.me }
  unfolding move_cw
  move_to_end j e = rw e refl

  move_along :
      (j : ℕ)
      → own_column heap rt i ≤ j
      → j < 15
      → move_cw heap rt (record { i = i; j = j; best = invalid })
        ≡ record { i = i; j = suc j; best = invalid }
  unfolding move_cw
  move_along j own h = ground arith

  probe_past_end :
      (best : Host) → probe heap rt (record { i = i; j = 16; best = best }) ≡ out_of_range
  unfolding probe
  probe_past_end best = rw best_past_end refl

  -- A walk along a row behind the own column comes to the column 16.
  walk_cw_past_end :
      (n j : ℕ)
      → is_valid rt.me ≡ true
      → own_column heap rt i ≤ j
      → j < 16
      → 16 - j ≤ n
      → walk_cw heap n rt (record { i = i; j = j; best = invalid }) ≡ out_of_range
  unfolding walk_cw same is_valid
  walk_cw_past_end zero j me own hj h = absurd (omega arith)
  walk_cw_past_end (suc n) j me own hj h = elim (Bool-cases (j == 15)) [
    | inl end ↦ rw (move_to_end j (ground arith), me, probe_past_end rt.me) refl
    | inr inside ↦
        rw (move_along j own (ground arith))
          (walk_cw_past_end n (suc j) me (omega arith) (ground arith) (omega arith))
  ]

-- A lookup with 700 rounds throws std::out_of_range under these conditions: the vector has 1920
-- elements, the own host is not null and has another key, the search for a perfect match finds
-- none, the digit of the key is at or behind the own digit in their row, and the last two entries
-- of the first column of that row are in use.
pub route_lookup-out_of_range :
    (heap : Heap) (rt : RoutingTable) (key : Key) (perfect : Bool) (h1 h2 : Host)
    → length rt.table ≡ 1920
    → is_valid rt.me ≡ true
    → key_of heap rt.me ≢ key
    → perfect_match heap 3 rt (row_of heap rt key) (column_of heap rt key) 0 key invalid
      ≡ ok invalid
    → own_column heap rt (row_of heap rt key) ≤ column_of heap rt key
    → get_entry rt (row_of heap rt key) 0 1 ≡ ok h1
    → is_valid h1 ≡ true
    → get_entry rt (row_of heap rt key) 0 2 ≡ ok h2
    → is_valid h2 ≡ true
    → route_lookup heap 700 rt key perfect ≡ out_of_range
unfolding route_lookup
route_lookup-out_of_range heap rt key perfect h1 h2 size me other none_there own read1 is1 read2
      is2 =
    let differ : eq (key_of heap rt.me) key ≡ false =
      ground (arith, eq_iff (key_of heap rt.me) key) in
    let null : is_valid invalid ≡ false = unfold is_valid in refl in
    rw (differ, none_there, null)
      (unfold closest in
        rw
          (walk_cw_past_end heap rt (row_of heap rt key) h1 h2 size read1 is1 read2 is2 700
            (column_of heap rt key) me own (unfold column_of in digit-lt key _) (omega arith))
          refl)
