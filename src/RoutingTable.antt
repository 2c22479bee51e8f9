-- ===== src/RoutingTable.antt =====
-- lib/chimera/routing_table.cpp: the prefix routing table of a host, 40 rows of 16 columns with
-- three entries each, in one vector. `at` throws out_of_range, which is a result here.
pub mod Walk
pub mod Cells
pub mod Place
pub mod Invariant
pub mod Prefix
pub mod Search
pub mod Termination
pub mod Throws
use arbore_experiment.Base.{
  ℕ, zero, suc, ◌+◌, ◌-◌, ◌*◌, ◌≡◌, Bool, true, false, ◌&&◌, ◌||◌, Option, none, some, List, [],
  ◌∷◌, ◌++◌, ltb, leb, ◌==◌, if◌then◌else◌, get_elem?, get_or, set, replicate, map,
}
use arbore_experiment.Key.{Key, eq, get_str, key_index}
use arbore_experiment.Host.{Host, invalid, Heap, key_of, success_avg_of, latency_of, same, is_valid}

-- MAX_ROW, MAX_COL and MAX_ENTRY.
abbrev pub max_row : ℕ
max_row = 40

abbrev pub max_col : ℕ
max_col = 16

abbrev pub max_entry : ℕ
max_entry = 3

-- The outcome of code that reads the vector by `at`. `no_fuel` is the model's own: a loop was
-- given too few rounds.
pub data Result {ℓ} (A : Type ℓ) : Type ℓ where
  ok : A → Result A
  out_of_range : Result A
  no_fuel : Result A

infixl 5 ◌>>=◌
abbrev pub ◌>>=◌ {ℓ κ} : {A : Type ℓ} {B : Type κ} → Result A → (A → Result B) → Result B
ok a >>= f = f a
out_of_range >>= f = out_of_range
no_fuel >>= f = no_fuel

pub record RoutingTable : Type 0 where
  pub me : Host
  pub table : List Host

abbrev pub cell : ℕ → ℕ → ℕ → ℕ
cell i j k = k * (max_col * max_row) + j * max_row + i

-- vector::at.
abbrev pub outcome : Option Host → Result Host
outcome none = out_of_range
outcome (some h) = ok h

unfoldable pub at : List Host → ℕ → Result Host
at l n = outcome (get_elem? l n)

unfoldable pub get_entry : RoutingTable → ℕ → ℕ → ℕ → Result Host
get_entry rt i j k = at rt.table (cell i j k)

unfoldable pub set_entry : RoutingTable → ℕ → ℕ → ℕ → Host → RoutingTable
set_entry rt i j k host = record rt { table = set rt.table (cell i j k) host }

-- clear: every element becomes InvalidHost.
unfoldable pub clear : RoutingTable → RoutingTable
clear rt = record rt { table = map (λ h. invalid) rt.table }

-- RoutingTable(Host): a vector of null hosts, cleared.
unfoldable pub init : Host → RoutingTable
unfolding clear
init me = clear (record { me = me; table = replicate (max_row * max_col * max_entry) invalid })

unfoldable pub key_update : RoutingTable → Host → RoutingTable
unfolding clear
key_update rt me = clear (record rt { me = me })

-- "0123456789abcdef".
abbrev pub hexalpha : List ℕ
hexalpha =
    b'0' ∷ b'1' ∷ b'2' ∷ b'3' ∷ b'4' ∷ b'5' ∷ b'6' ∷ b'7' ∷ b'8' ∷ b'9' ∷ b'a' ∷ b'b' ∷ b'c' ∷ b'd'
    ∷ b'e' ∷ b'f' ∷ []

-- The loop of hexalphaToInt at the index i, which goes on while the answer is 0.
unfoldable pub hexalpha_from : ℕ → List ℕ → ℕ → ℕ
hexalpha_from i [] c = 0
hexalpha_from i (x ∷ xs) c =
    let answer = if x == c then i else 0 in
    let rest = hexalpha_from (suc i) xs c in if answer == 0 then rest else answer

unfoldable pub hexalpha_to_int : ℕ → ℕ
unfolding hexalpha_from
hexalpha_to_int c = hexalpha_from 0 hexalpha c

-- The column of a key in a row: hexalphaToInt(key.GetStr()[i]).
unfoldable pub digit : Key → ℕ → ℕ
digit k i = hexalpha_to_int (get_or (get_str k) i 0)

-- How the search of `add` for a place ends: the entry was written, its key was there already,
-- or no place was free.
pub data Placement : Type 0 where
  placed : RoutingTable → Placement
  already : Placement
  full : Placement

-- The loops of findWorstEntry and findBestEntry, which differ in the test for a replacement.
-- They stop at the first invalid entry; max_entry stands for no entry.
unfoldable pub pick : (Host → Host → Bool) → ℕ → RoutingTable → ℕ → ℕ → ℕ → ℕ → Result ℕ
pick replaces zero rt i j k chosen = ok chosen
pick replaces (suc n) rt i j k chosen = do
  e ← get_entry rt i j k
  let first = pick replaces n rt i j (suc k) k
  let next = pick replaces n rt i j (suc k)
  if is_valid e
      then (if chosen == max_entry
          then first
          else (do c ← get_entry rt i j chosen; next (if replaces c e then k else chosen)))
      else ok chosen

module _ (heap : Heap) where
  -- The loop of `add`, with the number of places that are left to try.
  unfoldable pub find_place : ℕ → RoutingTable → ℕ → ℕ → ℕ → Host → Result Placement
  find_place zero rt i j k entry = ok full
  find_place (suc n) rt i j k entry = do
    e ← get_entry rt i j k
    let rest = find_place n rt i j (suc k) entry
    if same e invalid
        then ok (placed (set_entry rt i j k entry))
        else if is_valid e && eq (key_of heap e) (key_of heap entry)
        then ok already
        else rest

  -- Whether the second host replaces the first as the worst, or as the best.
  unfoldable pub is_worse : Host → Host → Bool
  is_worse c e =
      ltb (success_avg_of heap e) (success_avg_of heap c)
      || (success_avg_of heap c == success_avg_of heap e
          && ltb (latency_of heap c) (latency_of heap e))

  unfoldable pub is_better : Host → Host → Bool
  is_better c e =
      ltb (success_avg_of heap c) (success_avg_of heap e)
      || (success_avg_of heap c == success_avg_of heap e
          && ltb (latency_of heap e) (latency_of heap c))

  unfoldable pub find_worst_entry : RoutingTable → ℕ → ℕ → Result ℕ
  find_worst_entry rt i j = pick is_worse max_entry rt i j 0 max_entry

  unfoldable pub find_best_entry : RoutingTable → ℕ → ℕ → Result ℕ
  find_best_entry rt i j = pick is_better max_entry rt i j 0 max_entry

  -- The row and the column of a key.
  unfoldable pub row_of : RoutingTable → Key → ℕ
  row_of rt k = key_index (key_of heap rt.me) k

  unfoldable pub column_of : RoutingTable → Key → ℕ
  column_of rt k = digit k (row_of rt k)

  unfoldable pub finish_add : RoutingTable → ℕ → ℕ → Host → Placement → Result (RoutingTable × Bool)
  finish_add rt i j entry (placed rt') = ok (rt', true)
  finish_add rt i j entry already = ok (rt, false)
  finish_add rt i j entry full = do
    worst ← find_worst_entry rt i j
    ok (set_entry rt i j worst entry, true)

  unfoldable pub add : RoutingTable → Host → Result (RoutingTable × Bool)
  unfolding finish_add
  add rt entry =
      let i = row_of rt (key_of heap entry) in
      let j = column_of rt (key_of heap entry) in
      if eq (key_of heap rt.me) (key_of heap entry)
      then ok (rt, false)
      else (do p ← find_place max_entry rt i j 0 entry; finish_add rt i j entry p)

  -- The loop of `remove`.
  unfoldable pub remove_from : ℕ → RoutingTable → ℕ → ℕ → ℕ → Host → Result (RoutingTable × Bool)
  remove_from zero rt i j k entry = ok (rt, false)
  remove_from (suc n) rt i j k entry = do
    e ← get_entry rt i j k
    let rest = remove_from n rt i j (suc k) entry
    if is_valid e && eq (key_of heap e) (key_of heap entry)
        then ok (set_entry rt i j k invalid, true)
        else rest

  unfoldable pub remove : RoutingTable → Host → Result (RoutingTable × Bool)
  remove rt entry =
      if eq (key_of heap rt.me) (key_of heap entry)
      then ok (rt, false)
      else remove_from max_entry rt (row_of rt (key_of heap entry))
          (column_of rt (key_of heap entry)) 0 entry

-- The inner loops of getRow and getCopy: the valid entries of a place, from the l-th on.
unfoldable pub place_entries : ℕ → RoutingTable → ℕ → ℕ → ℕ → Result (List Host)
place_entries zero rt i j l = ok []
place_entries (suc n) rt i j l = do
  e ← get_entry rt i j l
  rest ← place_entries n rt i j (suc l)
  ok (if is_valid e then e ∷ rest else rest)

unfoldable pub row_entries : ℕ → RoutingTable → ℕ → ℕ → Result (List Host)
row_entries zero rt i j = ok []
row_entries (suc n) rt i j = do
  here ← place_entries max_entry rt i j 0
  rest ← row_entries n rt i (suc j)
  ok (here ++ rest)

unfoldable pub table_entries : ℕ → RoutingTable → ℕ → Result (List Host)
table_entries zero rt i = ok []
table_entries (suc n) rt i = do
  here ← row_entries max_col rt i 0
  rest ← table_entries n rt (suc i)
  ok (here ++ rest)

-- getRow puts the own host behind the entries.
unfoldable pub get_row : RoutingTable → ℕ → Result (List Host)
get_row rt i = do l ← row_entries max_col rt i 0; ok (l ++ rt.me ∷ [])

unfoldable pub get_copy : RoutingTable → Result (List Host)
get_copy rt = table_entries max_row rt 0
