-- ===== src/Content/Requests.antt =====
-- lib/files/file_content.cpp: what is asked of others, and who has which part.
use arbore_experiment.Base.{
  ℕ, ◌+◌, ◌%◌, Bool, true, false, ◌&&◌, not, Option, none, some, List, [], ◌∷◌, ◌++◌, ltb,
  if◌then◌else◌,
}
use arbore_experiment.Key.{Key, eq, lt, to_bool}
use arbore_experiment.Chunk.{size_mod, Desc, end_offset, same_desc, off_le}
use arbore_experiment.Content.{
  Content, Sharer, request_refs, request_chunk, Availability, chunk_ready, chunk_not_ready,
  chunk_unavailable, have_in_memory,
}
use arbore_experiment.Content.Disk.{Answers, on_disk_have_chunk}

-- ref_request_refresh.
abbrev ref_request_refresh : ℕ
ref_request_refresh = 30

-- The order in which the sharers are tried: from the one behind the last peer on, around.
unfoldable pub from_behind : Key → List Sharer → List Sharer → List Sharer
from_behind last tried [] = tried
from_behind last tried (s ∷ ss) =
    let rest = from_behind last (tried ++ s ∷ []) ss in
    if eq last s.peer then ss ++ (tried ++ s ∷ []) else rest

unfoldable pub rotated : Content → List Sharer
rotated c = if to_bool c.last_peer then from_behind c.last_peer [] c.sharers else c.sharers

unfoldable pub find_sharer : Desc → List Sharer → Option Sharer
find_sharer d [] = none
find_sharer d (s ∷ ss) =
    let rest = find_sharer d ss in
    if off_le s.offset d.offset && off_le (end_offset d) ((s.offset + s.size) % size_mod)
    then some s
    else rest

-- One round of NetworkFlushRequests: the request is sent, or stays in the queue.
unfoldable pub asked : Desc → Content → Option Sharer → Content
asked d c none = record c { net_pending = c.net_pending ++ d ∷ [] }
asked d c (some s) = record c { requests = request_chunk s.peer d ∷ c.requests; last_peer = s.peer }

unfoldable pub flush_each : List Desc → Content → Content
unfolding asked
flush_each [] c = c
flush_each (d ∷ ds) c = flush_each ds (asked d c (find_sharer d (rotated c)))

unfoldable pub has_sharers : List Sharer → Bool
has_sharers [] = false
has_sharers (s ∷ ss) = true

-- NetworkFlushRequests.
unfoldable pub network_flush_requests : ℕ → Content → Content
unfolding has_sharers
network_flush_requests now c =
    if has_sharers c.sharers
    then flush_each c.net_pending (record c { access_time = now; net_pending = [] })
    else record c { access_time = now }

-- The map of sharers: an assignment, and erase. The keys are in their order.
unfoldable pub put_sharer : Sharer → List Sharer → List Sharer
put_sharer s [] = s ∷ []
put_sharer s (x ∷ xs) =
    let rest = put_sharer s xs in
    if lt s.peer x.peer then s ∷ x ∷ xs else if lt x.peer s.peer then x ∷ rest else s ∷ xs

unfoldable pub erase_sharer : Key → List Sharer → List Sharer
erase_sharer k [] = []
erase_sharer k (x ∷ xs) =
    let rest = erase_sharer k xs in
    if lt k x.peer then x ∷ xs else if lt x.peer k then x ∷ rest else xs

unfoldable pub set_sharer : ℕ → Sharer → Content → Content
set_sharer now s c = network_flush_requests now (record c { sharers = put_sharer s c.sharers })

unfoldable pub remove_sharer : Key → Content → Content
remove_sharer k c = record c { sharers = erase_sharer k c.sharers }

-- NetworkRequestChunk. The search for a sharer of the part is switched off in the source.
unfoldable pub network_request_chunk : ℕ → Content → Content × Availability
unfolding has_sharers
network_request_chunk now c =
    let c' =
      if ltb (c.ref_request_time + ref_request_refresh) now
      then record c { requests = request_refs ∷ c.requests; ref_request_time = now }
      else c in
    (if has_sharers c'.sharers then network_flush_requests now c' else c', chunk_not_ready)

unfoldable pub is_requested : Desc → List Desc → Bool
is_requested d [] = false
is_requested d (e ∷ es) = let rest = is_requested d es in if same_desc e d then true else rest

-- NetworkHaveChunk, for a requester that is connected or not.
unfoldable pub network_have_chunk : ℕ → Bool → Desc → Content → Content × Availability
network_have_chunk now connected d c =
    if not connected
    then (c, chunk_unavailable)
    else if is_requested d c.net_requested
    then network_request_chunk now c
    else network_request_chunk now (record c {
      net_requested = c.net_requested ++ d ∷ [];
      net_pending = c.net_pending ++ d ∷ [];
    })

-- HaveChunk.
unfoldable pub else_network : ℕ → Bool → Desc → Content × Bool → Content × Availability
else_network now connected d (c, found) =
    if found then (c, chunk_ready) else network_have_chunk now connected d c

unfoldable pub have_chunk : ℕ → Answers → Bool → Desc → Content → Content × Availability
unfolding else_network
have_chunk now a connected d c =
    let c' = record c { access_time = now } in
    if have_in_memory d c'
    then (c', chunk_ready)
    else else_network now connected d (on_disk_have_chunk now a d c')
