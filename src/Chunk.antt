-- ===== src/Chunk.antt =====
-- lib/files/file_chunk_desc.cpp and file_chunk.cpp: a part of a file, with or without its bytes.
-- Sizes are size_t, of 64 bits. An offset is an off_t, which has a sign: it is its 64 bits here, so
-- sums and differences are taken modulo 2 ^ 64, and its order is off_lt and off_le.
pub mod Codec
use arbore_experiment.Base.{
  ℕ, ◌≡◌, ◌<◌, ◌≤◌, arith, zero, suc, ◌+◌, ◌-◌, ◌*◌, ◌%◌, Bool, true, false, ◌&&◌, ◌||◌, Option,
  none, some, List, [], ◌∷◌, ◌++◌, ltb, leb, ◌==◌, if◌then◌else◌, length, drop, take, replicate,
}
use arbore_experiment.Netutil.{
  Read, got, malformed, past_end, ◌>>=◌, dump32, read32, dump64, read64, copy,
}

abbrev pub size_mod : ℕ
size_mod = 18446744073709551616

-- From here on the 64 bits of an off_t are a negative number.
abbrev pub off_bound : ℕ
off_bound = 9223372036854775808

unfoldable pub ranked : ℕ → ℕ
ranked x = (x + off_bound) % size_mod

unfoldable pub off_lt : ℕ → ℕ → Bool
unfolding ranked
off_lt a b = ltb (ranked a) (ranked b)

unfoldable pub off_le : ℕ → ℕ → Bool
unfolding ranked
off_le a b = leb (ranked a) (ranked b)

unfoldable pub off_sub : ℕ → ℕ → ℕ
off_sub a b = (a + size_mod - b) % size_mod

-- Below the bound these are the order and the difference of the numbers.
pub off_lt-ltb : (a b : ℕ) → a < off_bound → b < off_bound → off_lt a b ≡ ltb a b
unfolding off_lt ranked
off_lt-ltb a b small_a small_b =
    let ra : (a + off_bound) % size_mod ≡ a + off_bound = omega arith in
    let rb : (b + off_bound) % size_mod ≡ b + off_bound = omega arith in rw (ra, rb) (ground arith)

pub off_le-leb : (a b : ℕ) → a < off_bound → b < off_bound → off_le a b ≡ leb a b
unfolding off_le ranked
off_le-leb a b small_a small_b =
    let ra : (a + off_bound) % size_mod ≡ a + off_bound = omega arith in
    let rb : (b + off_bound) % size_mod ≡ b + off_bound = omega arith in rw (ra, rb) (ground arith)

pub off_sub_lem : (a b : ℕ) → b ≤ a → a < off_bound → off_sub a b ≡ a - b
unfolding off_sub
off_sub_lem a b le small_a = omega arith

pub record Desc : Type 0 where
  pub offset : ℕ
  pub size : ℕ

-- FileChunkDesc().
unfoldable pub empty_desc : Desc
empty_desc = record { offset = 0; size = 0 }

-- GetEndOffset, an off_t.
unfoldable pub end_offset : Desc → ℕ
end_offset d = (d.offset + d.size) % size_mod

unfoldable pub same_desc : Desc → Desc → Bool
same_desc a b = a.offset == b.offset && a.size == b.size

unfoldable pub desc_lt : Desc → Desc → Bool
desc_lt a b = off_lt a.offset b.offset || (a.offset == b.offset && ltb a.size b.size)

unfoldable pub overlaps : Desc → Desc → Bool
overlaps a b =
    (off_le a.offset b.offset && off_lt b.offset (end_offset a))
    || (off_le b.offset a.offset && off_lt a.offset (end_offset b))

-- MAX and MIN of two off_t.
unfoldable pub off_max : ℕ → ℕ → ℕ
off_max a b = if off_lt b a then a else b

unfoldable pub off_min : ℕ → ℕ → ℕ
off_min a b = if off_lt a b then a else b

-- GetCommonPartDesc, without its assertion that the common part is not empty.
unfoldable pub common_part : Desc → Desc → Desc
common_part a b =
    if overlaps a b
    then (let from = off_max a.offset b.offset in
        record { offset = from; size = off_sub (off_min (end_offset a) (end_offset b)) from })
    else empty_desc

unfoldable pub contains : Desc → Desc → Bool
contains a b = off_le a.offset b.offset && off_le (end_offset b) (end_offset a)

-- A FileChunk. Its `data` is null or the size many bytes.
pub record Chunk : Type 0 where
  pub desc : Desc
  pub bytes : Option (List ℕ)
  pub access_time : ℕ
  pub hdd_synced : Bool

-- FileChunk().
unfoldable pub empty_chunk : Chunk
empty_chunk = record { desc = empty_desc; bytes = none; access_time = 0; hdd_synced = false }

-- FileChunk(const char*, off_t, size_t), at a time: size many bytes of the pointer.
unfoldable pub new_chunk : ℕ → Option (List ℕ) → ℕ → ℕ → Chunk
new_chunk now none offset size = record {
  desc = record { offset = offset; size = size };
  bytes = none;
  access_time = now;
  hdd_synced = false;
}
new_chunk now (some bytes) offset size = record {
  desc = record { offset = offset; size = size };
  bytes = some (take size bytes);
  access_time = now;
  hdd_synced = false;
}

abbrev pub bytes_of : Option (List ℕ) → List ℕ
bytes_of none = []
bytes_of (some bytes) = bytes

-- memcpy to a place in a buffer.
unfoldable pub overwrite : List ℕ → ℕ → List ℕ → List ℕ
overwrite buff at bytes = take at buff ++ (bytes ++ drop (at + length bytes) buff)

-- Merge, at a time.
unfoldable pub merge : ℕ → Chunk → Chunk → Chunk
merge now c chunk =
    let common = common_part c.desc chunk.desc in
    let part =
      take common.size (drop (off_sub common.offset chunk.desc.offset) (bytes_of chunk.bytes)) in
    if overlaps c.desc chunk.desc
    then record c {
      bytes = some (overwrite (bytes_of c.bytes) (off_sub common.offset c.desc.offset) part);
      access_time = now;
      hdd_synced = false;
    }
    else c

-- GetPart, at a time; the source also sets its own access time.
unfoldable pub get_part : ℕ → Chunk → Desc → Chunk
get_part now c d =
    let common = common_part c.desc d in
    if overlaps c.desc d
    then record (new_chunk now
        (some (drop (off_sub common.offset c.desc.offset) (bytes_of c.bytes))) common.offset
        common.size) { hdd_synced = c.hdd_synced }
    else empty_chunk

-- The branches of Concatenate: the other has no data, this has none, or both have.
unfoldable pub concatenate_data : ℕ → Chunk → Chunk → Option (List ℕ) → Option (List ℕ) → Chunk
concatenate_data now c other mine none = c
concatenate_data now c other none (some theirs) = other
concatenate_data now c other (some mine) (some theirs) =
    let new_size = (c.desc.size + other.desc.size) % size_mod in
    record {
      desc = record { offset = c.desc.offset; size = new_size };
      bytes = some (
          overwrite (overwrite (replicate new_size 0) 0 mine)
            (off_sub other.desc.offset c.desc.offset) theirs);
      access_time = now;
      hdd_synced = false;
    }

-- Concatenate, at a time. The other part begins where this one ends, or the source logs an error
-- and writes beside the new buffer, which is not modelled.
unfoldable pub concatenate : ℕ → Chunk → Chunk → Chunk
concatenate now c other = concatenate_data now c other c.bytes other.bytes

-- getSerialisedSize and dump.
unfoldable pub chunk_size : Chunk → ℕ
chunk_size c = 8 + 4 + c.desc.size

unfoldable pub dump_chunk : Chunk → List ℕ
dump_chunk c =
    dump64 (c.desc.offset % size_mod)
    ++ (dump32 (c.desc.size % 4294967296) ++ take c.desc.size (bytes_of c.bytes))

-- FileChunk(char*): the pointer goes on by sizeof(size), which is 8 for a size_t. The access time
-- and hdd_synced are not set: they are what the memory holds.
unfoldable pub read_chunk : ℕ × Bool → List ℕ → Read Chunk
read_chunk (t, synced) buff = do
  offset ← read64 buff
  size ← read32 (drop 8 buff)
  bytes ← copy size (drop 8 (drop 8 buff))
  got (record {
    desc = record { offset = offset; size = size };
    bytes = some bytes;
    access_time = t;
    hdd_synced = synced;
  })
