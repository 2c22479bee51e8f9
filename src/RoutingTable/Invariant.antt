-- ===== src/RoutingTable/Invariant.antt =====
-- The placement of the entries of the routing table (lib/chimera/routing_table.cpp).
use arbore_experiment.Base.{
  ℕ, zero, ◌<◌, ◌≡◌, refl, sym, ◌∙◌, inl, inr, true, false, List, [], ◌∷◌, arith, ◌==◌, length,
  get_elem?, replicate, map, ap, suc, length-replicate, Bool-cases,
}
use arbore_experiment.Key.{Key}
use arbore_experiment.Key.Index.{key_index_bounds}
use arbore_experiment.Host.{Host, invalid, Heap, key_of, is_valid}
use arbore_experiment.RoutingTable.{
  ok, RoutingTable, cell, outcome, at, get_entry, set_entry, clear, init, key_update, row_of,
  column_of,
}
use arbore_experiment.RoutingTable.Cells.{
  InRange, cell-injective, get_entry-set_entry_self, get_entry-set_entry_ne, length-set_entry,
  digit-lt,
}

module _ (heap : Heap) where
  -- The place of a host in a table: the row and the column of its key.
  abbrev pub StandsAt : RoutingTable → ℕ → ℕ → Host → Type 0
  StandsAt rt i j h = (row_of heap rt (key_of heap h) ≡ i) × (column_of heap rt (key_of heap h) ≡ j)

  pub record IsTable (rt : RoutingTable) : Type 0 where
    pub size : length rt.table ≡ 1920
    pub placed :
        (i j k : ℕ) (h : Host)
        → InRange i j k
        → get_entry rt i j k ≡ ok h
        → is_valid h ≡ true
        → StandsAt rt i j h

  pub row_of-InRange :
      (rt : RoutingTable) (key : Key) (k : ℕ)
      → k < 3
      → InRange (row_of heap rt key) (column_of heap rt key) k
  unfolding row_of column_of
  row_of-InRange rt key k h = record {
    row = omega (arith, key_index_bounds (key_of heap rt.me) key);
    column = digit-lt key _;
    entry = h;
  }

  pub set_entry-IsTable :
      (rt : RoutingTable) (i j k : ℕ) (e : Host)
      → IsTable rt
      → InRange i j k
      → (is_valid e ≡ true → StandsAt rt i j e)
      → IsTable (set_entry rt i j k e)
  set_entry-IsTable rt i j k e t r stands = record {
    size = length-set_entry rt i j k e ∙ t.size;
    placed = λ i' j' k' h r' read is. elim (Bool-cases (cell i j k == cell i' j' k')) [
      | inl here ↦
          let (ei, ej, ek) = cell-injective i j k i' j' k' r r' (ground arith) in
          let it : e ≡ h =
            ground (arith, get_entry-set_entry_self rt i j k e t.size r, read, ei, ej, ek) in
          unfold set_entry row_of column_of in ground (arith, stands, it, is, ei, ej)
      | inr there ↦
          unfold set_entry row_of column_of in
          t.placed i' j' k' h r'
            (sym (get_entry-set_entry_ne rt i j k i' j' k' e r r' (λ s. ground arith)) ∙ read) is
    ];
  }

-- Nothing is left in a cleared vector.
get_elem?-cleared :
    (l : List Host) (n : ℕ) (h : Host)
    → outcome (get_elem? (map (λ (x : Host). invalid) l) n) ≡ ok h
    → is_valid h ≡ false
unfolding is_valid
get_elem?-cleared [] n h e = absurd (ground arith)
get_elem?-cleared (x ∷ xs) zero h e = ground arith
get_elem?-cleared (x ∷ xs) (suc n) h e = get_elem?-cleared xs n h e

length-cleared : (l : List Host) → length (map (λ (x : Host). invalid) l) ≡ length l
length-cleared [] = refl
length-cleared (x ∷ xs) = ap suc (length-cleared xs)

clear-IsTable : (heap : Heap) (rt : RoutingTable) → length rt.table ≡ 1920 → IsTable heap (clear rt)
unfolding clear get_entry at
clear-IsTable heap rt size = record {
  size = length-cleared rt.table ∙ size;
  placed = λ i j k h r read is.
      absurd (ground (arith, get_elem?-cleared rt.table (cell i j k) h read, is));
}

pub init-IsTable : (heap : Heap) (me : Host) → IsTable heap (init me)
unfolding init
init-IsTable heap me =
    clear-IsTable heap (record { me = me; table = replicate 1920 invalid })
      (length-replicate 1920 invalid)

-- A change of the own key empties the table, so the placement holds for the new key.
pub key_update-IsTable :
    (heap : Heap) (rt : RoutingTable) (me : Host)
    → IsTable heap rt
    → IsTable heap (key_update rt me)
unfolding key_update
key_update-IsTable heap rt me t = clear-IsTable heap (record rt { me = me }) t.size
