-- ===== src/Chunk/Codec.antt =====
-- The byte form of a chunk: what FileChunk(char*) of lib/files/file_chunk.cpp makes of `dump`.
use mathlib.Core.List.{append_assoc}
use arbore_experiment.Base.{
  ℕ, ◌%◌, ◌≡◌, ◌<◌, ◌≤◌, refl, ap, sym, ◌∙◌, List, [], ◌∷◌, ◌++◌, length, drop, take, drop_by,
  length-append, take_of_length-le, Bool, some, arith,
}
use arbore_experiment.Netutil.{got, dump32, dump64, copy}
use arbore_experiment.Netutil.RoundTrip.{copy-append, read32-dump32, read64-dump64}
use arbore_experiment.Chunk.{Chunk, bytes_of, dump_chunk, read_chunk}

-- Of the bytes from the fourth on, as many as there are in all.
copy-shifted :
    (n : ℕ) (l tail rest : List ℕ)
    → n ≡ length l
    → 4 ≤ n
    → length tail ≡ 4
    → copy n (drop 4 (l ++ (tail ++ rest))) ≡ got (drop 4 l ++ tail)
copy-shifted n (p ∷ q ∷ r ∷ s ∷ l) tail rest e h four =
    let e' : n ≡ length (l ++ tail) = omega (arith, length-append l tail) in
    rw (e', ← append_assoc l tail rest) (copy-append (l ++ tail) rest)
copy-shifted n [] tail rest e h four = absurd (omega arith)
copy-shifted n (p ∷ []) tail rest e h four = absurd (omega arith)
copy-shifted n (p ∷ q ∷ []) tail rest e h four = absurd (omega arith)
copy-shifted n (p ∷ q ∷ r ∷ []) tail rest e h four = absurd (omega arith)

length-dump64 : (n : ℕ) → length (dump64 n) ≡ 8
unfolding dump64 dump32
length-dump64 n = refl

-- A chunk that has its bytes, in the 64 and 32 bits of the byte form.
pub record IsChunk (c : Chunk) : Type 0 where
  pub sized : length (bytes_of c.bytes) ≡ c.desc.size
  pub offset : c.desc.offset < 18446744073709551616
  pub size : c.desc.size < 4294967296

-- For a chunk with all of its bytes, at least four of them, an offset below 2^64 and a size below
-- 2^32, followed by four bytes and any others: the constructor from bytes reads what `dump` wrote
-- as a chunk with the same place, but with the first four bytes lost and the four that follow at
-- the end.
pub read_chunk-dump_chunk :
    (t : ℕ) (synced : Bool) (c : Chunk) (tail rest : List ℕ)
    → IsChunk c
    → 4 ≤ c.desc.size
    → length tail ≡ 4
    → read_chunk (t, synced) (dump_chunk c ++ (tail ++ rest))
      ≡ got (record {
        desc = c.desc;
        bytes = some (drop 4 (bytes_of c.bytes) ++ tail);
        access_time = t;
        hdd_synced = synced;
      })
unfolding read_chunk dump_chunk
read_chunk-dump_chunk t synced c tail rest h big four =
    let l = bytes_of c.bytes in
    let all : take c.desc.size l ≡ l = take_of_length-le c.desc.size l (omega (arith, h.sized)) in
    let off : c.desc.offset % 18446744073709551616 ≡ c.desc.offset = omega (arith, h.offset) in
    let size : c.desc.size % 4294967296 ≡ c.desc.size = omega (arith, h.size) in
    let behind = dump32 c.desc.size ++ (l ++ (tail ++ rest)) in
    let whole : (dump64 c.desc.offset ++ (dump32 c.desc.size ++ l)) ++ (tail ++ rest)
        ≡ dump64 c.desc.offset ++ behind =
      append_assoc (dump64 c.desc.offset) (dump32 c.desc.size ++ l) (tail ++ rest)
      ∙ ap (◌++◌ (dump64 c.desc.offset)) (append_assoc (dump32 c.desc.size) l (tail ++ rest)) in
    let skipped : copy c.desc.size (drop 8 behind) ≡ got (drop 4 l ++ tail) =
      unfold dump32 in copy-shifted c.desc.size l tail rest (sym h.sized) big four in
    rw
      (
        all,
        off,
        size,
        whole,
        read64-dump64 c.desc.offset behind h.offset,
        drop_by 8 (dump64 c.desc.offset) behind (sym (length-dump64 c.desc.offset)),
        read32-dump32 c.desc.size (l ++ (tail ++ rest)) h.size,
        skipped,
      )
      refl
