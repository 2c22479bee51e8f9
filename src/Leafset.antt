-- ===== src/Leafset.antt =====
-- lib/chimera/leafset.cpp: the neighbours of a host in the key space, four on each side, the
-- nearest first. The keys are read from the heap of hosts.
pub mod Side
pub mod Invariant
pub mod Nearest
pub mod Lookup
use arbore_experiment.Base.{
  ℕ, ◌/◌, ◌≡◌, Bool, true, false, Option, none, some, List, [], ◌∷◌, ◌++◌, ltb, if◌then◌else◌,
  length,
}
use arbore_experiment.Key.{Key, eq, gt, lt, get_str}
use arbore_experiment.Host.{Host, Heap, key_of}

pub record Leafset : Type 0 where
  pub me : Host
  pub leaves_cw : List Host
  pub leaves_ccw : List Host

-- ONE_SIDE_LEAFSET_SIZE.
abbrev one_side_leafset_size : ℕ
one_side_leafset_size = 4

-- How the loop of `add` ends: the key is there, the entry was inserted, or the loop ran through.
pub data Scan : Type 0 where
  found : Scan
  inserted : List Host → Scan
  past_end : Scan

abbrev pub behind : Host → Scan → Scan
behind h found = found
behind h (inserted l) = inserted (h ∷ l)
behind h past_end = past_end

-- vector::pop_back, of a vector that is not empty.
unfoldable pub pop_back : List Host → List Host
pop_back [] = []
pop_back (h ∷ []) = []
pop_back (h ∷ h' ∷ hs) = h ∷ pop_back (h' ∷ hs)

-- What the branch for one side does then: the new side, and what is returned.
unfoldable pub after_scan : Host → List Host → Scan → List Host × Bool
after_scan entry side found = (side, false)
after_scan entry side (inserted l) =
    (if ltb one_side_leafset_size (length l) then pop_back l else l, true)
after_scan entry side past_end =
    if ltb (length side) one_side_leafset_size then (side ++ entry ∷ [], true) else (side, false)

module _ (same_key before : Host → Host → Bool) where
  -- The loop over one side: `before` is the test of that side for an earlier place.
  unfoldable pub scan : Host → List Host → Scan
  scan entry [] = past_end
  scan entry (h ∷ hs) =
      if same_key entry h
      then found
      else if before entry h
      then inserted (entry ∷ h ∷ hs)
      else behind h (scan entry hs)

  -- The whole branch of `add` for one side.
  unfoldable pub add_side : Host → List Host → List Host × Bool
  unfolding after_scan
  add_side entry side = after_scan entry side (scan entry side)

-- erase of the first host with the key, if any.
module _ (same_key : Host → Host → Bool) where
  unfoldable pub remove_side : Host → List Host → Option (List Host)
  remove_side entry [] = none
  remove_side entry (h ∷ hs) =
      if same_key entry h
      then some hs
      else elim (remove_side entry hs) [ none ↦ none | some r ↦ some (h ∷ r) ]

-- vector::back.
unfoldable pub last : List Host → Option Host
last [] = none
last (h ∷ []) = some h
last (h ∷ h' ∷ hs) = last (h' ∷ hs)

-- Leafset(Host).
unfoldable pub init : Host → Leafset
init me = record { me = me; leaves_cw = []; leaves_ccw = [] }

unfoldable pub clear : Leafset → Leafset
clear l = record l { leaves_cw = []; leaves_ccw = [] }

unfoldable pub key_update : Leafset → Host → Leafset
key_update l me = record (clear l) { me = me }

unfoldable pub get_copy : Leafset → List Host
get_copy l = l.leaves_cw ++ l.leaves_ccw

module _ (heap : Heap) where
  unfoldable pub same_key : Host → Host → Bool
  same_key a b = eq (key_of heap a) (key_of heap b)

  unfoldable pub key_lt : Host → Host → Bool
  key_lt a b = lt (key_of heap a) (key_of heap b)

  unfoldable pub key_gt : Host → Host → Bool
  key_gt a b = gt (key_of heap a) (key_of heap b)

  unfoldable pub add : Leafset → Host → Leafset × Bool
  add l entry =
      if same_key l.me entry
      then (l, false)
      else if key_gt entry l.me
      then (let (side, added) = add_side same_key key_lt entry l.leaves_cw in
          (record l { leaves_cw = side }, added))
      else (let (side, added) = add_side same_key key_gt entry l.leaves_ccw in
          (record l { leaves_ccw = side }, added))

  unfoldable pub remove : Leafset → Host → Leafset × Bool
  remove l entry =
      if same_key entry l.me then (l, false) else elim (remove_side same_key entry l.leaves_cw) [
        | some r ↦ (record l { leaves_cw = r }, true)
        | none ↦ elim (remove_side same_key entry l.leaves_ccw) [
          | some r ↦ (record l { leaves_ccw = r }, true)
          | none ↦ (l, false)
        ]
      ]

  -- The first host of a side that has the key.
  unfoldable pub find_key : Key → List Host → Option Host
  find_key key [] = none
  find_key key (h ∷ hs) = if eq key (key_of heap h) then some h else find_key key hs

  abbrev or_me : Leafset → Option Host → Host
  or_me l none = l.me
  or_me l (some h) = h

  -- routeLookup: the next hop, and *inLeafset.
  unfoldable pub route_lookup : Leafset → Key → Host × Bool
  route_lookup l key = elim (find_key key l.leaves_cw) [
    | some h ↦ (h, true)
    | none ↦ elim (find_key key l.leaves_ccw) [
      | some h ↦ (h, true)
      | none ↦
          if gt key (key_of heap l.me)
          then (or_me l (last l.leaves_cw), false)
          else if lt key (key_of heap l.me)
          then (or_me l (last l.leaves_ccw), false)
          else (l.me, false)
    ]
  ]

-- getCWSide and getCCWSide.
unfoldable pub get_cw_side : Leafset → List Host
get_cw_side l = l.leaves_cw

unfoldable pub get_ccw_side : Leafset → List Host
get_ccw_side l = l.leaves_ccw

module _ (heap : Heap) where
  -- The loops of GetStr: the printed keys, a blank behind each.
  unfoldable pub key_strs : List Host → List ℕ
  key_strs [] = []
  key_strs (h ∷ hs) = get_str (key_of heap h) ++ b' ' ∷ key_strs hs

  -- GetStr: "LEFT: ", the clockwise keys, "\nRIGHT: ", the others, "\n".
  unfoldable pub leafset_str : Leafset → List ℕ
  leafset_str l =
      b'L'
      ∷ b'E'
      ∷ b'F'
      ∷ b'T'
      ∷ b':'
      ∷ b' '
      ∷ (key_strs l.leaves_cw
          ++ 10
            ∷ b'R'
            ∷ b'I'
            ∷ b'G'
            ∷ b'H'
            ∷ b'T'
            ∷ b':'
            ∷ b' '
            ∷ (key_strs l.leaves_ccw ++ 10 ∷ []))
