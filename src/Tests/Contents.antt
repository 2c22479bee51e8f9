-- ===== src/Tests/Contents.antt =====
-- Runs of lib/files/file_content.cpp.
use arbore_experiment.Base.{
  ℕ, ◌≡◌, refl, arith, List, [], ◌∷◌, true, false, none, some, if◌then◌else◌,
}
use arbore_experiment.Key.{zero_key}
use arbore_experiment.Chunk.{
  ranked, off_lt, off_le, off_sub, off_max, off_min, end_offset, overlaps, common_part, Chunk,
  merge, get_part, new_chunk, overwrite, empty_desc, empty_chunk, same_desc,
}
use arbore_experiment.Content.{
  Content, erase_desc, left_over, merge_each, place_chunk, set_chunk, has_part, reaches,
  have_in_memory, truncate,
}
use arbore_experiment.Content.Have.{Covers, have_in_memory-Covers}
use arbore_experiment.Content.Cut.{byte_at, truncate-byte_at}
use arbore_experiment.Content.Requests.{network_flush_requests, has_sharers}
use arbore_experiment.Content.Flush.{Waits, network_flush_requests-Waits}
use arbore_experiment.Tests.{key_at}

program : Unit {0}
unfolding ranked off_lt off_le off_sub off_max off_min end_offset overlaps common_part merge
    get_part new_chunk overwrite empty_desc empty_chunk same_desc erase_desc left_over merge_each
    place_chunk set_chunk has_part reaches have_in_memory
program = tt

abbrev chunk : ℕ → List ℕ → ℕ → Chunk
chunk offset bytes size = record {
  desc = record { offset = offset; size = size };
  bytes = some bytes;
  access_time = 0;
  hdd_synced = false;
}

-- Eight bytes in two chunks; one peer has the first ten bytes of the file.
abbrev content : Content
content = record {
  chunks = chunk 0 (1 ∷ 2 ∷ 3 ∷ 4 ∷ []) 4 ∷ chunk 4 (5 ∷ 6 ∷ 7 ∷ 8 ∷ []) 4 ∷ [];
  ondisk_offset = 0;
  ondisk_size = 0;
  is_loaded = false;
  ondisk_synced = true;
  access_time = 0;
  net_requested = [];
  net_pending = record { offset = 8; size = 4 } ∷ [];
  sharers = record { peer = key_at 3; offset = 0; size = 10 } ∷ [];
  last_peer = zero_key;
  ref_request_time = 0;
  requests = [];
}

-- A chunk with the place of the first puts an empty one behind it, and then the whole is not found.
replaces :
    ((set_chunk 1 (chunk 0 (9 ∷ 9 ∷ 9 ∷ 9 ∷ []) 4) content).chunks
      ≡ record (chunk 0 (9 ∷ 9 ∷ 9 ∷ 9 ∷ []) 4) { access_time = 1 }
        ∷ empty_chunk
        ∷ chunk 4 (5 ∷ 6 ∷ 7 ∷ 8 ∷ []) 4
        ∷ [])
    × (have_in_memory
          (record { offset = 0; size = 8 })
          (set_chunk 1 (chunk 0 (9 ∷ 9 ∷ 9 ∷ 9 ∷ []) 4) content)
        ≡ false)
unfolding program
replaces = (refl, refl)

-- The bytes before the first chunk that overlaps are lost.
loses :
    (place_chunk 1 (chunk 2 (9 ∷ 9 ∷ 9 ∷ []) 3) none (chunk 4 (5 ∷ 6 ∷ []) 2 ∷ []))
    ≡ record (chunk 4 (9 ∷ 6 ∷ []) 2) { access_time = 1 } ∷ []
unfolding program
loses = refl

have_in_memory-Covers_example : Covers 6 content.chunks
unfolding program
have_in_memory-Covers_example =
    have_in_memory-Covers (record { offset = 1; size = 7 }) content 6 (omega arith)
      (omega arith, (omega arith, tt)) refl (omega arith) (omega arith)

truncate-byte_at_example :
    byte_at 2 (truncate 1 none 3 content).chunks ≡ (if true then byte_at 2 content.chunks else none)
truncate-byte_at_example =
    truncate-byte_at 1 none 3 2 content (omega arith, omega arith, (omega arith, omega arith, tt))
      (omega arith)

network_flush_requests-Waits_example : Waits (network_flush_requests 1 content)
unfolding has_sharers
network_flush_requests-Waits_example = network_flush_requests-Waits 1 content refl
