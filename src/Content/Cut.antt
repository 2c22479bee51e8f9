-- ===== src/Content/Cut.antt =====
-- The bytes that Truncate (lib/files/file_content.cpp) leaves in memory.
use arbore_experiment.Base.{
  ℕ, ◌+◌, ◌-◌, ◌%◌, ◌≤◌, ◌<◌, ◌≡◌, refl, ◌∙◌, ◌&&◌, Option, none, some, List, [], ◌∷◌, ltb, leb,
  if◌then◌else◌, get_elem?, get_elem?-take, arith, inl, inr, Bool-cases,
}
use arbore_experiment.Chunk.{
  size_mod, off_bound, end_offset, off_lt, off_le, off_lt-ltb, off_le-leb, off_sub_lem, Chunk,
  new_chunk, bytes_of,
}
use arbore_experiment.Content.{Content, cut_chunks, truncate, load_fd, cut_disk, load_answer}

-- The byte at a place: that of the first chunk that has it.
unfoldable pub byte_at : ℕ → List Chunk → Option ℕ
byte_at x [] = none
byte_at x (c ∷ cs) =
    let rest = byte_at x cs in
    if leb c.desc.offset x && ltb x (end_offset c.desc)
    then get_elem? (bytes_of c.bytes) (x - c.desc.offset)
    else rest

-- The chunks stand in order from a place on, do not overlap and end below 2 ^ 63, where an off_t is
-- not negative.
abbrev pub Ordered : ℕ → List Chunk → Type 0
Ordered lo [] = Unit
Ordered lo (c ∷ cs) =
    (lo ≤ c.desc.offset)
    × (c.desc.offset + c.desc.size < off_bound)
    × Ordered (c.desc.offset + c.desc.size) cs

byte_at-Ordered : (x lo : ℕ) (cs : List Chunk) → Ordered lo cs → x < lo → byte_at x cs ≡ none
unfolding byte_at
byte_at-Ordered x lo [] o lt = refl
byte_at-Ordered x lo (c ∷ cs) o lt =
    let rest = byte_at-Ordered x (c.desc.offset + c.desc.size) cs o.2 (omega (arith, o.0)) in
    ground (arith, rest, o.0)

-- The chunk that is cut.
byte_at-new_chunk :
    (now offset x : ℕ) (c : Chunk)
    → c.desc.offset < offset
    → offset < size_mod
    → byte_at x (new_chunk now c.bytes c.desc.offset (offset - c.desc.offset) ∷ []) ≡ (
        if leb c.desc.offset x && ltb x offset
        then get_elem? (bytes_of c.bytes) (x - c.desc.offset)
        else none)
unfolding byte_at end_offset new_chunk
byte_at-new_chunk now offset x c lt short = cut c.bytes
  where
    to_end : (c.desc.offset + (offset - c.desc.offset)) % size_mod ≡ offset
    to_end = omega arith

    cut :
        (bytes : Option (List ℕ))
        → byte_at x (new_chunk now bytes c.desc.offset (offset - c.desc.offset) ∷ []) ≡ (
            if leb c.desc.offset x && ltb x offset
            then get_elem? (bytes_of bytes) (x - c.desc.offset)
            else none)
    cut none = rw to_end refl
    cut (some l) =
        rw to_end (ground (arith, get_elem?-take (offset - c.desc.offset) (x - c.desc.offset) l))

cut_chunks-byte_at :
    (now offset x lo : ℕ) (cs : List Chunk)
    → Ordered lo cs
    → offset < off_bound
    → byte_at x (cut_chunks now offset cs) ≡ (if ltb x offset then byte_at x cs else none)
unfolding cut_chunks byte_at end_offset
cut_chunks-byte_at now offset x lo [] o near = ground arith
cut_chunks-byte_at now offset x lo (c ∷ cs) o near =
    let end = c.desc.offset + c.desc.size in
    let short : end % size_mod ≡ end = omega (arith, o.1) in
    let rest = cut_chunks-byte_at now offset x end cs o.2 near in
    let ends = off_le-leb end offset o.1 near in
    let starts = off_lt-ltb c.desc.offset offset (omega (arith, o.1)) near in
    let gone : x < end → byte_at x cs ≡ none = λ lt. byte_at-Ordered x end cs o.2 lt in
    elim (Bool-cases (leb end offset)) [
      | inl kept ↦ rw (short, ends, kept) (ground (arith, rest))
      | inr behind ↦ elim (Bool-cases (ltb c.desc.offset offset)) [
        | inl split ↦
            rw
              (
                short,
                ends,
                behind,
                starts,
                split,
                off_sub_lem offset c.desc.offset (ground arith) near,
              )
              (byte_at-new_chunk now offset x c (ground arith) (ground (arith, o.1))
                ∙ ground (arith, gone))
        | inr erased ↦ rw (short, ends, behind, starts, erased) (ground (arith, gone))
      ]
    ]

load_fd-chunks : (answer : Option ℕ) (c : Content) → (load_fd answer c).0.chunks ≡ c.chunks
unfolding load_fd
load_fd-chunks answer c = elim (Bool-cases c.is_loaded) [
  | inl there ↦ rw there refl
  | inr missing ↦ rw missing (answered answer)
]
  where
    answered : (a : Option ℕ) → (load_answer c a).0.chunks ≡ c.chunks
    answered none = refl
    answered (some size) = refl

cut_disk-chunks : (offset : ℕ) (c : Content) → (cut_disk offset c).chunks ≡ c.chunks
unfolding cut_disk
cut_disk-chunks offset c =
    elim (Bool-cases (off_lt offset ((c.ondisk_offset + c.ondisk_size) % size_mod))) [
      | inr short ↦ rw short refl
      | inl long ↦ elim (Bool-cases c.is_loaded) [
        | inr missing ↦ rw (long, missing) refl
        | inl there ↦ elim (Bool-cases (off_le offset c.ondisk_offset)) [
          | inl all ↦ rw (long, there, all) refl
          | inr part ↦ rw (long, there, part) refl
        ]
      ]
    ]

-- If the chunks of a content stand in order, do not overlap and end below 2^63, then after
-- Truncate at an offset below 2^63 every place before the offset has the byte that it had, or none
-- if it had none, and no place behind it has one.
pub truncate-byte_at :
    (now : ℕ) (answer : Option ℕ) (offset x : ℕ) (c : Content)
    → Ordered 0 c.chunks
    → offset < off_bound
    → byte_at x (truncate now answer offset c).chunks
      ≡ (if ltb x offset then byte_at x c.chunks else none)
unfolding truncate
truncate-byte_at now answer offset x c o near =
    rw
      (
        cut_disk-chunks offset
            (load_fd answer
              (record c { access_time = now; chunks = cut_chunks now offset c.chunks })).0,
        load_fd-chunks answer
            (record c { access_time = now; chunks = cut_chunks now offset c.chunks }),
      )
      (cut_chunks-byte_at now offset x 0 c.chunks o near)
