-- ===== src/RoutingTable/Prefix.antt =====
-- A perfect match of routeLookup (lib/chimera/routing_table.cpp) shares a longer prefix with the
-- key than the own host does.
use arbore_experiment.Base.{
  ℕ, zero, suc, ◌+◌, ◌≤◌, ◌<◌, ◌≡◌, refl, sym, ap, ◌∙◌, ◌≢◌, ◌⊎◌, inl, inr, Bool, true, false, ◌&&◌,
  arith, ltb, ◌==◌, ==_iff, get_or, Bool-cases,
}
use arbore_experiment.Key.{Key, IsKey, eq, get_str, key_index, hex_digit}
use arbore_experiment.Key.Order.{eq_iff}
use arbore_experiment.Key.Hex.{get_str_char}
use arbore_experiment.Key.Index.{key_index_bounds, key_index_agree, key_index_differ}
use arbore_experiment.Host.{Host, invalid, Heap, key_of, is_valid}
use arbore_experiment.Leafset.Invariant.{ValidKeys, key_of-IsKey}
use arbore_experiment.RoutingTable.{
  Result, ok, out_of_range, no_fuel, ◌>>=◌, RoutingTable, hexalpha_from, hexalpha_to_int, digit,
  row_of, column_of,
}
use arbore_experiment.RoutingTable.Cells.{InRange, get_entry-total}
use arbore_experiment.RoutingTable.Invariant.{StandsAt, IsTable, row_of-InRange}
use arbore_experiment.RoutingTable.Walk.{best_link, best_entry, choose, perfect_match, route_lookup}

-- A check of every number below a bound, by evaluation.
all_below : ℕ → (ℕ → Bool) → Bool
all_below zero p = true
all_below (suc n) p = p n && all_below n p

all_below-true : (n : ℕ) (p : ℕ → Bool) (x : ℕ) → all_below n p ≡ true → x < n → p x ≡ true
unfolding all_below
all_below-true zero p x h lt = absurd (omega arith)
all_below-true (suc n) p x h lt = ground (arith, all_below-true n p x)

digits_table : all_below 16 (λ d. hexalpha_to_int (hex_digit d) == d) ≡ true
unfolding all_below hexalpha_to_int hexalpha_from hex_digit
digits_table = refl

-- hexalphaToInt takes the characters of "%x" back to their digits.
hexalpha_to_int-hex_digit : (d : ℕ) → d < 16 → hexalpha_to_int (hex_digit d) ≡ d
hexalpha_to_int-hex_digit d h = (==_iff _ d).0 (all_below-true 16 _ d digits_table h)

-- A printed key is made of its digits.
get_str-digit :
    (k : Key) (i : ℕ) → IsKey k → 2 ≤ i → i < 42 → get_or (get_str k) i 0 ≡ hex_digit (digit k i)
unfolding digit
get_str-digit k i h lo hi =
    let (d, lt, is) = get_str_char k i h lo hi in
    is ∙ sym (ap hex_digit (ap hexalpha_to_int is ∙ hexalpha_to_int-hex_digit d lt))

-- Two keys with the same row in the table of a host and the same digit there agree further.
key_index-deeper :
    (me a b : Key)
    → IsKey a
    → IsKey b
    → key_index me a ≡ key_index me b
    → digit a (key_index me b) ≡ digit b (key_index me b)
    → key_index me b < 39
    → key_index me b < key_index a b
key_index-deeper me a b ha hb row column h = elim (Bool-cases (ltb i m)) [
  | inl deeper ↦ ground arith
  | inr not_deeper ↦ elim (Bool-cases (m == i)) [
    | inl here ↦ absurd (differ not_deeper (rw ((==_iff m i).0 here) same_here))
    | inr above ↦
        absurd (differ not_deeper (sym (agree m (ground arith)) ∙ agree' m (ground arith)))
  ]
]
  where
    i : ℕ
    i = key_index me b

    m : ℕ
    m = key_index a b

    differ : ltb i m ≡ false → get_or (get_str a) m 0 ≢ get_or (get_str b) m 0
    differ e = key_index_differ a b (ground arith)

    agree : (n : ℕ) → n < i → get_or (get_str me) n 0 ≡ get_or (get_str a) n 0
    agree n lt = key_index_agree me a n (omega arith)

    agree' : (n : ℕ) → n < i → get_or (get_str me) n 0 ≡ get_or (get_str b) n 0
    agree' n lt = key_index_agree me b n lt

    same_here : get_or (get_str a) i 0 ≡ get_or (get_str b) i 0
    same_here =
        let r = key_index_bounds me b in
        get_str-digit a i ha r.0 (omega arith)
        ∙ ap hex_digit column
        ∙ sym (get_str-digit b i hb r.0 (omega arith))

module _ (heap : Heap) (rt : RoutingTable) (i j : ℕ) (key : Key) where
  -- The candidate is null or stands in the place.
  abbrev IsCandidate : Host → Type 0
  IsCandidate h = (is_valid h ≡ false) ⊎ StandsAt heap rt i j h

  choose-IsCandidate :
      (hop e : Host) → IsCandidate hop → IsCandidate e → IsCandidate (choose heap key hop e)
  unfolding choose best_entry best_link
  choose-IsCandidate hop e h c = ground arith

  -- The loop ends, with a candidate.
  pub perfect_match-IsCandidate :
      (n k : ℕ) (hop : Host)
      → k + n ≡ 3
      → IsTable heap rt
      → i < 40
      → j < 16
      → IsCandidate hop
      → (h : Host) × (perfect_match heap n rt i j k key hop ≡ ok h) × IsCandidate h
  unfolding perfect_match
  perfect_match-IsCandidate zero k hop e t hi hj c = (hop, refl, c)
  perfect_match-IsCandidate (suc n) k hop e t hi hj c =
      let r : InRange i j k = omega arith in
      let (x, read) = get_entry-total rt i j k t.size r in
      let x_stands : IsCandidate x = elim (Bool-cases (is_valid x)) [
        | inl is ↦ inr (t.placed i j k x r read is)
        | inr null ↦ inl null
      ] in
      rw read (
        perfect_match-IsCandidate n (suc k) (choose heap key hop x) (omega arith) t hi hj
          (choose-IsCandidate hop x c x_stands))

not_perfect :
    (r : Result Host) (hop : Host)
    → (◌>>=◌ {B = Host × Bool} r (λ h. ok (h, false))) ≢ ok (hop, true)
not_perfect (ok h) hop e = absurd (ground arith)
not_perfect out_of_range hop e = absurd (ground arith)
not_perfect no_fuel hop e = absurd (ground arith)

-- What routeLookup calls a perfect match stands in the place of the key.
perfect-StandsAt :
    (heap : Heap) (rt : RoutingTable) (key : Key) (fuel : ℕ) (hop : Host)
    → IsTable heap rt
    → key_of heap rt.me ≢ key
    → route_lookup heap fuel rt key false ≡ ok (hop, true)
    → StandsAt heap rt (row_of heap rt key) (column_of heap rt key) hop
unfolding route_lookup
perfect-StandsAt heap rt key fuel hop t other found =
    let r = row_of-InRange heap rt key 0 (omega arith) in
    let (h, ends, c) =
      perfect_match-IsCandidate heap rt (row_of heap rt key) (column_of heap rt key) key 3 0 invalid
        refl t r.row r.column (inl (unfold is_valid in refl)) in
    let differ : eq (key_of heap rt.me) key ≡ false =
      ground (arith, eq_iff (key_of heap rt.me) key) in
    elim (Bool-cases (is_valid h)) [
      | inl is ↦
          let e : h ≡ hop = ground (arith, rw (differ, ends, is) at found) in
          rw (← e) (ground arith)
      | inr null ↦ absurd (not_perfect _ hop (rw (differ, ends, null) at found))
    ]

-- If all keys of the heap and the key have five words, the table is well formed, the key is not
-- the own one and differs from it at an index below 39, then a next hop that routeLookup gives as
-- a perfect match has a key_index with the key that is larger than that of the own key.
pub route_lookup_progress :
    (heap : Heap) (rt : RoutingTable) (key : Key) (fuel : ℕ) (hop : Host)
    → ValidKeys heap
    → IsKey key
    → IsTable heap rt
    → key_of heap rt.me ≢ key
    → key_index (key_of heap rt.me) key < 39
    → route_lookup heap fuel rt key false ≡ ok (hop, true)
    → key_index (key_of heap rt.me) key < key_index (key_of heap hop) key
unfolding row_of column_of
route_lookup_progress heap rt key fuel hop valid hk t other short found =
    let (row, column) = perfect-StandsAt heap rt key fuel hop t other found in
    key_index-deeper (key_of heap rt.me) (key_of heap hop) key (key_of-IsKey heap valid hop) hk row
      (rw row at column) short
