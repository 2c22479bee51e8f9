-- ===== src/Content.antt =====
-- lib/files/file_content.cpp: the parts of a file that a host has in memory and on disk, and those
-- that it asks others for. Every method holds the lock of the content, so it is one step. What the
-- system calls answer are parameters.
pub mod Have
pub mod Cut
pub mod Disk
pub mod Requests
pub mod Flush
use arbore_experiment.Base.{
  ℕ, zero, suc, ◌+◌, ◌-◌, ◌%◌, Bool, true, false, ◌&&◌, ◌||◌, not, Option, none, some, List, [],
  ◌∷◌, ◌++◌, ltb, leb, ◌==◌, if◌then◌else◌,
}
use arbore_experiment.Key.{Key, eq, lt, to_bool}
use arbore_experiment.Chunk.{
  size_mod, Desc, end_offset, same_desc, overlaps, off_lt, off_le, off_sub, Chunk, empty_chunk,
  new_chunk, merge, get_part, concatenate, bytes_of,
}

-- A sharedchunks, with the peer of its entry in the map.
pub record Sharer : Type 0 where
  pub peer : Key
  pub offset : ℕ
  pub size : ℕ

-- A call of the requester.
pub data Request : Type 0 where
  request_refs : Request
  request_chunk : Key → Desc → Request

-- A FileContent, with the calls that its requester got, the last first.
pub record Content : Type 0 where
  pub chunks : List Chunk
  pub ondisk_offset : ℕ
  pub ondisk_size : ℕ
  pub is_loaded : Bool
  pub ondisk_synced : Bool
  pub access_time : ℕ
  pub net_requested : List Desc
  pub net_pending : List Desc
  pub sharers : List Sharer
  pub last_peer : Key
  pub ref_request_time : ℕ
  pub requests : List Request

pub data Availability : Type 0 where
  chunk_ready chunk_not_ready chunk_unavailable : Availability

-- LoadFd, for the size that lseek answers, none for its error.
unfoldable pub load_answer : Content → Option ℕ → Content × Bool
load_answer c none = (record c { is_loaded = false; ondisk_size = 0; ondisk_offset = 0 }, false)
load_answer c (some size) = (record c { is_loaded = true; ondisk_size = size }, true)

unfoldable pub load_fd : Option ℕ → Content → Content × Bool
unfolding load_answer
load_fd answer c = if c.is_loaded then (c, true) else load_answer c answer

-- SetChunk. The search of net_requested for the place of the chunk.
unfoldable pub erase_desc : Desc → List Desc → List Desc
erase_desc d [] = []
erase_desc d (e ∷ es) = let rest = erase_desc d es in if same_desc e d then es else e ∷ rest

-- The data that is left is inserted, from the end of the chunk before on.
unfoldable pub left_over : ℕ → Chunk → Option Chunk → Chunk
left_over now chunk none =
    get_part now chunk (record { offset = chunk.desc.offset; size = chunk.desc.size })
left_over now chunk (some before) =
    let from = end_offset before.desc in
    get_part now chunk (record { offset = from; size = off_sub (end_offset chunk.desc) from })

-- The second loop, from a chunk that ends behind the offset on; the chunk before it, if any.
unfoldable pub merge_each : ℕ → Chunk → Option Chunk → List Chunk → List Chunk
merge_each now chunk before [] = []
merge_each now chunk before (c ∷ cs) =
    let merged = merge now c chunk in
    let rest = merge_each now chunk (some merged) cs in
    if off_lt c.desc.offset (end_offset chunk.desc)
    then merged ∷ rest
    else left_over now chunk before ∷ c ∷ cs

-- The first loop, over the chunks that end at the offset or before.
unfoldable pub place_chunk : ℕ → Chunk → Option Chunk → List Chunk → List Chunk
place_chunk now chunk before [] = chunk ∷ []
place_chunk now chunk before (c ∷ cs) =
    let rest = place_chunk now chunk (some c) cs in
    if off_le (end_offset c.desc) chunk.desc.offset
    then c ∷ rest
    else merge_each now chunk before (c ∷ cs)

unfoldable pub set_chunk : ℕ → Chunk → Content → Content
set_chunk now chunk c = record c {
  chunks = place_chunk now chunk none c.chunks;
  ondisk_synced = false;
  access_time = now;
  net_requested = erase_desc chunk.desc c.net_requested;
}

-- GetChunk: the parts of the first run of chunks that overlap.
unfoldable pub join_parts : ℕ → Desc → Chunk → List Chunk → Chunk
join_parts now d acc [] = acc
join_parts now d acc (c ∷ cs) =
    let rest = join_parts now d (concatenate now acc (get_part now c d)) cs in
    if overlaps c.desc d then rest else acc

unfoldable pub find_part : ℕ → Desc → List Chunk → Chunk
find_part now d [] = new_chunk now none 0 0
find_part now d (c ∷ cs) =
    let rest = find_part now d cs in
    if overlaps c.desc d then join_parts now d empty_chunk (c ∷ cs) else rest

-- GetPart sets the access time of each chunk of that run.
unfoldable pub touch_run : ℕ → Desc → List Chunk → List Chunk
touch_run now d [] = []
touch_run now d (c ∷ cs) =
    let rest = touch_run now d cs in
    if overlaps c.desc d then record c { access_time = now } ∷ rest else c ∷ cs

unfoldable pub touch_part : ℕ → Desc → List Chunk → List Chunk
unfolding touch_run
touch_part now d [] = []
touch_part now d (c ∷ cs) =
    let rest = touch_part now d cs in
    if overlaps c.desc d then touch_run now d (c ∷ cs) else c ∷ rest

unfoldable pub get_chunk : ℕ → Desc → Content → Content × Chunk
get_chunk now d c =
    (record c { chunks = touch_part now d c.chunks; access_time = now }, find_part now d c.chunks)

-- FileContentHaveChunk: the loop that looks for the end, from a place on.
unfoldable pub reaches : Desc → ℕ → List Chunk → Bool
reaches d next [] = false
reaches d next (c ∷ cs) =
    let rest = reaches d (end_offset c.desc) cs in
    if off_lt (end_offset c.desc) (end_offset d) && next == c.desc.offset
    then rest
    else next == c.desc.offset

unfoldable pub has_part : Desc → List Chunk → Bool
unfolding reaches
has_part d [] = false
has_part d (c ∷ cs) =
    let rest = has_part d cs in
    if overlaps d c.desc
    then (if off_lt d.offset c.desc.offset then false else reaches d c.desc.offset (c ∷ cs))
    else rest

unfoldable pub have_in_memory : Desc → Content → Bool
have_in_memory d c = has_part d c.chunks

-- HaveAnyChunk.
unfoldable pub is_nil : List Chunk → Bool
is_nil [] = true
is_nil (c ∷ cs) = false

unfoldable pub have_any_chunk : Option ℕ → Content → Content × Bool
unfolding is_nil
have_any_chunk answer c =
    let c' = (load_fd answer c).0 in (c', not (is_nil c'.chunks) || not (c'.ondisk_size == 0))

-- Truncate: the list, with the first chunk behind the offset cut at it.
unfoldable pub cut_chunks : ℕ → ℕ → List Chunk → List Chunk
cut_chunks now offset [] = []
cut_chunks now offset (c ∷ cs) =
    let rest = cut_chunks now offset cs in
    if off_le (end_offset c.desc) offset
    then c ∷ rest
    else if off_lt c.desc.offset offset
    then new_chunk now c.bytes c.desc.offset (off_sub offset c.desc.offset) ∷ []
    else []

-- What Truncate does with the file on the disk.
unfoldable pub cut_disk : ℕ → Content → Content
cut_disk offset c =
    if off_lt offset ((c.ondisk_offset + c.ondisk_size) % size_mod)
    then (if not c.is_loaded
        then c
        else if off_le offset c.ondisk_offset
        then record c { ondisk_offset = 0; ondisk_size = 0 }
        else record c { ondisk_size = off_sub offset c.ondisk_offset })
    else c

unfoldable pub truncate : ℕ → Option ℕ → ℕ → Content → Content
unfolding cut_disk
truncate now answer offset c =
    let c' = record c { access_time = now; chunks = cut_chunks now offset c.chunks } in
    cut_disk offset (load_fd answer c').0
