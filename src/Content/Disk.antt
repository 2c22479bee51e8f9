-- ===== src/Content/Disk.antt =====
-- lib/files/file_content.cpp: what goes to the disk and comes from it.
use arbore_experiment.Base.{
  ℕ, suc, ◌+◌, ◌%◌, Bool, true, false, ◌&&◌, ◌||◌, Option, some, List, [], ◌∷◌, ltb, ◌==◌,
  if◌then◌else◌,
}
use arbore_experiment.Chunk.{size_mod, Desc, end_offset, off_le, off_max, off_sub, Chunk, new_chunk}
use arbore_experiment.Content.{Content, load_fd, set_chunk}

-- What the system calls of one use of the file answer: its size for LoadFd, whether lseek and write
-- succeed, and the buffer that read leaves.
pub record Answers : Type 0 where
  pub file_size : Option ℕ
  pub seeks : Bool
  pub writes : Bool
  pub buffer : List ℕ

-- write_to_hdd_timeout. The times of a content are in seconds.
abbrev write_to_hdd_timeout : ℕ
write_to_hdd_timeout = 10

-- OnDiskWrite: the content, and whether the chunk is on the disk. The chunk is erased behind it.
unfoldable pub on_disk_write : Answers → Chunk → Content → Content
on_disk_write a chunk c =
    let (c', loaded) = load_fd a.file_size (record c { ondisk_offset = 0 }) in
    if loaded && (a.seeks && a.writes)
    then record c' { ondisk_size = off_max (end_offset chunk.desc) c'.ondisk_size }
    else c'

-- OnDiskLoad.
unfoldable pub on_disk_load : ℕ → Answers → Desc → Content → Content × Bool
on_disk_load now a d c =
    let (c', loaded) = load_fd a.file_size c in
    let chunk = record (new_chunk now (some a.buffer) d.offset d.size) { hdd_synced = true } in
    if loaded && a.seeks then (set_chunk now chunk c', true) else (c', false)

-- OnDiskHaveChunk.
unfoldable pub on_disk_have_chunk : ℕ → Answers → Desc → Content → Content × Bool
on_disk_have_chunk now a d c =
    let c' = (load_fd a.file_size c).0 in
    if off_le c'.ondisk_offset d.offset
      && off_le (end_offset d) ((c'.ondisk_offset + c'.ondisk_size) % size_mod)
    then on_disk_load now a d c'
    else (c', false)

-- The end of SyncToHdd, with the chunks that are kept.
unfoldable pub close_synced : List Chunk → Content → Content
close_synced chunks c =
    if c.ondisk_synced && c.is_loaded
    then record c { chunks = chunks; is_loaded = false }
    else record c { chunks = chunks }

unfoldable pub with_kept : Chunk → Content → Content
with_kept chunk c = record c { chunks = chunk ∷ c.chunks }

-- The loop of SyncToHdd over the chunks. The answers are those for the chunk that a number counts.
module _ (now : ℕ) (force : Bool) (answers : ℕ → Answers) where
  unfoldable pub sync_each : ℕ → List Chunk → Content → Content
  sync_each n [] c = close_synced [] c
  sync_each n (chunk ∷ cs) c =
      let written = on_disk_write (answers n) chunk c in
      let go_on = sync_each (suc n) cs in
      if off_le chunk.desc.offset ((c.ondisk_offset + c.ondisk_size) % size_mod)
      then (if ltb (chunk.access_time + write_to_hdd_timeout) now || force
          then (if chunk.hdd_synced
              then go_on c
              else if force
              then go_on written
              else record written { ondisk_synced = false; chunks = cs })
          else if force
          then with_kept chunk (go_on (record c { ondisk_synced = false }))
          else record c { ondisk_synced = false; chunks = chunk ∷ cs })
      else close_synced (chunk ∷ cs) c

  -- SyncToHdd.
  unfoldable pub sync_to_hdd : Content → Content
  sync_to_hdd c =
      if c.ondisk_synced then c else sync_each 0 c.chunks (record c { ondisk_synced = true })

-- GetSharedContent: the end of the first run of chunks, and what is shared.
unfoldable pub run_end : ℕ → ℕ → List Chunk → ℕ
run_end next last [] = last
run_end next last (c ∷ cs) =
    let rest = run_end (end_offset c.desc) (end_offset c.desc) cs in
    if next == c.desc.offset then rest else last

unfoldable pub shared_part : Content → List Chunk → ℕ × ℕ
shared_part c [] = (c.ondisk_offset, c.ondisk_size)
shared_part c (chunk ∷ cs) =
    let from =
      if off_le chunk.desc.offset c.ondisk_offset && off_le c.ondisk_offset (end_offset chunk.desc)
      then chunk.desc.offset
      else c.ondisk_offset in
    let last = run_end chunk.desc.offset 0 (chunk ∷ cs) in
    (from, off_sub (off_max last ((c.ondisk_offset + c.ondisk_size) % size_mod)) from)

unfoldable pub get_shared_content : ℕ → Option ℕ → Content → Content × (ℕ × ℕ)
unfolding shared_part
get_shared_content now answer c =
    let c' = (load_fd answer (record c { access_time = now })).0 in (c', shared_part c' c'.chunks)
