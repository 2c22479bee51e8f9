-- ===== src/Content/Flush.antt =====
-- What NetworkFlushRequests (lib/files/file_content.cpp) leaves in the queue.
use arbore_experiment.Base.{
  ℕ, ◌+◌, ◌%◌, ◌≡◌, refl, true, false, ◌&&◌, Option, none, some, List, [], ◌∷◌, ◌++◌, All, arith,
  inl, inr, Bool-cases,
}
use arbore_experiment.Key.{Key, eq, to_bool}
use arbore_experiment.Chunk.{size_mod, Desc, end_offset, off_le}
use arbore_experiment.Content.{Content, Sharer}
use arbore_experiment.Content.Requests.{
  from_behind, rotated, find_sharer, asked, flush_each, has_sharers, network_flush_requests,
}

All-append : {A : Type 0} (P : A → Type 0) (xs ys : List A) → All P (xs ++ ys) → All P xs × All P ys
All-append P [] ys h = (tt, h)
All-append P (x ∷ xs) ys h = let (a, b) = All-append P xs ys h.1 in ((h.0, a), b)

append-All : {A : Type 0} (P : A → Type 0) (xs ys : List A) → All P xs → All P ys → All P (xs ++ ys)
append-All P [] ys a b = b
append-All P (x ∷ xs) ys a b = (a.0, append-All P xs ys a.1 b)

-- The sharer does not have the part.
abbrev pub Lacks : Desc → Sharer → Type 0
Lacks d s =
    (off_le s.offset d.offset && off_le (end_offset d) ((s.offset + s.size) % size_mod)) ≡ false

from_behind-All :
    (P : Sharer → Type 0) (last : Key) (tried l : List Sharer)
    → All P (from_behind last tried l)
    → All P tried × All P l
unfolding from_behind
from_behind-All P last tried [] h = (h, tt)
from_behind-All P last tried (s ∷ ss) h = elim (Bool-cases (eq last s.peer)) [
  | inl hit ↦
      let (behind, before) = All-append P ss (tried ++ s ∷ []) (rw hit at h) in
      let (a, b) = All-append P tried (s ∷ []) before in (a, (b.0, behind))
  | inr miss ↦
      let (before, behind) = from_behind-All P last (tried ++ s ∷ []) ss (rw miss at h) in
      let (a, b) = All-append P tried (s ∷ []) before in (a, (b.0, behind))
]

find_sharer-Lacks : (d : Desc) (l : List Sharer) → find_sharer d l ≡ none → All (Lacks d) l
unfolding find_sharer
find_sharer-Lacks d [] e = tt
find_sharer-Lacks d (s ∷ ss) e =
    elim (Bool-cases
      (off_le s.offset d.offset && off_le (end_offset d) ((s.offset + s.size) % size_mod))) [
        | inl has ↦ absurd (found_one (rw has at e))
        | inr lacks ↦ (lacks, find_sharer-Lacks d ss (rw lacks at e))
      ]
  where
    found_one : some s ≡ none → ⊥
    found_one e' = absurd (ground arith)

rotated-All : (P : Sharer → Type 0) (c : Content) → All P (rotated c) → All P c.sharers
unfolding rotated
rotated-All P c h = elim (Bool-cases (to_bool c.last_peer)) [
  | inl known ↦ (from_behind-All P c.last_peer [] c.sharers (rw known at h)).1
  | inr first ↦ rw first at h
]

-- No sharer has a part that waits.
abbrev pub Waits : Content → Type 0
Waits c = All (λ d. All (Lacks d) c.sharers) c.net_pending

asked-Waits :
    (d : Desc) (c : Content) (o : Option Sharer)
    → Waits c
    → find_sharer d (rotated c) ≡ o
    → Waits (asked d c o)
unfolding asked
asked-Waits d c (some s) w e = w
asked-Waits d c none w e =
    append-All (λ d'. All (Lacks d') c.sharers) c.net_pending (d ∷ []) w
      (rotated-All (Lacks d) c (find_sharer-Lacks d (rotated c) e), tt)

flush_each-Waits : (ds : List Desc) (c : Content) → Waits c → Waits (flush_each ds c)
unfolding flush_each
flush_each-Waits [] c w = w
flush_each-Waits (d ∷ ds) c w = flush_each-Waits ds _ (asked-Waits d c _ w refl)

-- If a content has sharers, then after NetworkFlushRequests no sharer has a part that waits in the
-- queue, whichever peer was asked last.
pub network_flush_requests-Waits :
    (now : ℕ) (c : Content) → has_sharers c.sharers ≡ true → Waits (network_flush_requests now c)
unfolding network_flush_requests
network_flush_requests-Waits now c some_shares =
    rw some_shares
      (flush_each-Waits c.net_pending (record c { access_time = now; net_pending = [] }) tt)
