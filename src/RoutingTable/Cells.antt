-- ===== src/RoutingTable/Cells.antt =====
-- Reads and writes of the cells of the routing table (lib/chimera/routing_table.cpp).
use arbore_experiment.Base.{
  ℕ, suc, ◌+◌, ◌<◌, ◌≡◌, refl, ap, some, List, [], ◌∷◌, arith, length, get_elem?, get_or,
  length-set, get_elem?-set_self, get_elem?-set_ne, get_elem?-some,
}
use arbore_experiment.Key.{Key, get_str}
use arbore_experiment.Host.{Host}
use arbore_experiment.RoutingTable.{
  ok, RoutingTable, cell, outcome, at, get_entry, set_entry, hexalpha, hexalpha_from,
  hexalpha_to_int, digit,
}

-- A row, a column and an entry of the table.
pub record InRange (i j k : ℕ) : Type 0 where
  pub row : i < 40
  pub column : j < 16
  pub entry : k < 3

cell-lt : (i j k : ℕ) → InRange i j k → cell i j k < 1920
cell-lt i j k r = omega arith

pub cell-injective :
    (i j k i' j' k' : ℕ)
    → InRange i j k
    → InRange i' j' k'
    → cell i j k ≡ cell i' j' k'
    → (i ≡ i') × (j ≡ j') × (k ≡ k')
cell-injective i j k i' j' k' r r' e = omega arith

at-some : (l : List Host) (n : ℕ) (h : Host) → get_elem? l n ≡ some h → at l n ≡ ok h
unfolding at
at-some l n h e = rw (e, at) refl

-- A read in range gives a host.
pub get_entry-total :
    (rt : RoutingTable) (i j k : ℕ)
    → length rt.table ≡ 1920
    → InRange i j k
    → (h : Host) × (get_entry rt i j k ≡ ok h)
unfolding get_entry
get_entry-total rt i j k size r =
    let (h, e) = get_elem?-some rt.table (cell i j k) (omega (arith, cell-lt i j k r, size)) in
    (h, at-some rt.table (cell i j k) h e)

pub get_entry-set_entry_self :
    (rt : RoutingTable) (i j k : ℕ) (h : Host)
    → length rt.table ≡ 1920
    → InRange i j k
    → get_entry (set_entry rt i j k h) i j k ≡ ok h
unfolding get_entry set_entry
get_entry-set_entry_self rt i j k h size r =
    at-some _ (cell i j k) h
      (get_elem?-set_self rt.table (cell i j k) h (omega (arith, cell-lt i j k r, size)))

pub get_entry-set_entry_ne :
    (rt : RoutingTable) (i j k i' j' k' : ℕ) (h : Host)
    → InRange i j k
    → InRange i' j' k'
    → ¬ ((i ≡ i') × (j ≡ j') × (k ≡ k'))
    → get_entry (set_entry rt i j k h) i' j' k' ≡ get_entry rt i' j' k'
unfolding get_entry set_entry at
get_entry-set_entry_ne rt i j k i' j' k' h r r' other = ap outcome (
    get_elem?-set_ne rt.table (cell i j k) (cell i' j' k') h
      (λ e. other (cell-injective i j k i' j' k' r r' e)))

pub length-set_entry :
    (rt : RoutingTable) (i j k : ℕ) (h : Host)
    → length (set_entry rt i j k h).table ≡ length rt.table
unfolding set_entry
length-set_entry rt i j k h = length-set rt.table (cell i j k) h

hexalpha_from-lt :
    (i : ℕ) (l : List ℕ) (c : ℕ) → 0 < i + length l → hexalpha_from i l c < i + length l
unfolding hexalpha_from
hexalpha_from-lt i [] c h = omega arith
hexalpha_from-lt i (x ∷ xs) c h = ground (arith, hexalpha_from-lt (suc i) xs c (omega arith))

-- A digit is a column.
pub digit-lt : (k : Key) (i : ℕ) → digit k i < 16
unfolding digit hexalpha_to_int
digit-lt k i = hexalpha_from-lt 0 hexalpha (get_or (get_str k) i 0) (omega arith)
