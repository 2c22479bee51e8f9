-- ===== src/RoutingTable/Walk.antt =====
-- routeLookup of lib/chimera/routing_table.cpp, with its two walks through the table.
use arbore_experiment.Base.{
  ℕ, zero, suc, ◌-◌, Bool, true, false, ◌&&◌, ltb, leb, ◌==◌, if◌then◌else◌,
}
use arbore_experiment.Key.{Key, eq, lt, gt, distance, key_index}
use arbore_experiment.Host.{Host, invalid, Heap, key_of, success_avg_of, latency_of, same, is_valid}
use arbore_experiment.RoutingTable.{
  Result, ok, no_fuel, ◌>>=◌, RoutingTable, max_row, max_col, max_entry, get_entry, digit,
  find_best_entry, row_of, column_of,
}

-- A place in the table, and the candidate that was found so far.
pub record Cursor : Type 0 where
  pub i : ℕ
  pub j : ℕ
  pub best : Host

module _ (heap : Heap) where
  -- GetSuccessAvg() > BAD_LINK: the float of 6/20 lies above the double 0.3, that of 5/20 below.
  unfoldable pub is_good_link : Host → Bool
  is_good_link h = leb 6 (success_avg_of heap h)

  -- bestEntry(e1, e2).
  unfoldable pub best_link : Host → Host → Host
  best_link e1 e2 =
      if ltb (success_avg_of heap e2) (success_avg_of heap e1)
      then e1
      else if success_avg_of heap e1 == success_avg_of heap e2
          && ltb (latency_of heap e1) (latency_of heap e2)
      then e1
      else e2

  -- bestEntry(e1, e2, key).
  unfoldable pub best_entry : Host → Host → Key → Host
  best_entry e1 e2 key =
      let m1 = key_index (key_of heap e1) key in
      let m2 = key_index (key_of heap e2) key in
      if ltb m2 m1 then e1 else if ltb m1 m2 then e2 else best_link e1 e2

  -- One round of the loop for a perfect match.
  unfoldable pub choose : Key → Host → Host → Host
  choose key hop e =
      if is_valid e && is_good_link e
      then (if same hop invalid then e else best_entry hop e key)
      else hop

  unfoldable pub perfect_match : ℕ → RoutingTable → ℕ → ℕ → ℕ → Key → Host → Result Host
  perfect_match zero rt i j k key hop = ok hop
  perfect_match (suc n) rt i j k key hop = do
    e ← get_entry rt i j k
    perfect_match n rt i j (suc k) key (choose key hop e)

  -- The digit of the own key in a row: the own column.
  unfoldable pub own_column : RoutingTable → ℕ → ℕ
  own_column rt i = digit (key_of heap rt.me) i

  -- What both loops do with a place: the entry that findBestEntry gives, if any.
  unfoldable pub probe : RoutingTable → Cursor → Result Cursor
  probe rt c = do
    index ← find_best_entry heap rt c.i c.j
    if ltb index max_entry
        then (do h ← get_entry rt c.i c.j index; ok (record c { best = h }))
        else ok c

  -- The move of the clockwise loop.
  unfoldable pub move_cw : RoutingTable → Cursor → Cursor
  move_cw rt c =
      if leb max_col (suc c.j)
      then record c { j = suc c.j; best = rt.me }
      else if own_column rt c.i == suc c.j
      then (if leb max_row (suc c.i)
          then record { i = suc c.i; j = suc c.j; best = rt.me }
          else record c { i = suc c.i; j = 0 })
      else record c { j = suc c.j }

  -- The move of the counter-clockwise loop.
  unfoldable pub move_ccw : RoutingTable → Cursor → Cursor
  move_ccw rt c =
      if c.j == 0
      then record c { best = rt.me }
      else if own_column rt c.i == c.j - 1
      then (if suc c.i == max_row
          then record { i = suc c.i; j = c.j - 1; best = rt.me }
          else record c { i = suc c.i; j = max_col - 1 })
      else record c { j = c.j - 1 }

  -- while(clockwiseBest == InvalidHost): the place is probed if there is a candidate already.
  unfoldable pub walk_cw : ℕ → RoutingTable → Cursor → Result Host
  walk_cw zero rt c = no_fuel
  walk_cw (suc n) rt c =
      let moved = move_cw rt c in
      let rest = walk_cw n rt in
      if same c.best invalid
      then (do c' ← if is_valid moved.best then probe rt moved else ok moved; rest c')
      else ok c.best

  -- while(counterClockwiseBest == InvalidHost): the place is probed if the clockwise loop found a
  -- candidate.
  unfoldable pub walk_ccw : ℕ → RoutingTable → Host → Cursor → Result Host
  walk_ccw zero rt cw c = no_fuel
  walk_ccw (suc n) rt cw c =
      let moved = move_ccw rt c in
      let rest = walk_ccw n rt cw in
      if same c.best invalid
      then (do c' ← if is_valid cw then probe rt moved else ok moved; rest c')
      else ok c.best

  -- The candidate whose key is the nearer to the key that is looked for.
  unfoldable pub nearer : RoutingTable → Key → Host → Host → Host
  nearer rt key cw ccw =
      let dist_cw = distance (key_of heap cw) key in
      let dist_ccw = distance (key_of heap ccw) key in
      if lt dist_cw dist_ccw
      then cw
      else if gt dist_cw dist_ccw
      then ccw
      else if same cw rt.me
      then cw
      else invalid

  -- The two walks from the place of the key.
  unfoldable pub closest : ℕ → RoutingTable → ℕ → ℕ → Key → Result Host
  closest fuel rt i j key = do
    cw ← walk_cw fuel rt (record { i = i; j = j; best = invalid })
    ccw ← walk_ccw fuel rt cw (record { i = i; j = j; best = invalid })
    ok (nearer rt key cw ccw)

  -- routeLookup: the next hop and *perfectMatch, which is left as it was for the own key.
  unfoldable pub route_lookup : ℕ → RoutingTable → Key → Bool → Result (Host × Bool)
  route_lookup fuel rt key perfect = if eq (key_of heap rt.me) key then ok (rt.me, perfect) else (do
    let i = row_of heap rt key
    let j = column_of heap rt key
    hop ← perfect_match max_entry rt i j 0 key invalid
    if is_valid hop then ok (hop, true) else (do h ← closest fuel rt i j key; ok (h, false)))
