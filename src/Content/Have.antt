-- ===== src/Content/Have.antt =====
-- What an answer of FileContentHaveChunk (lib/files/file_content.cpp) says of the bytes.
use arbore_experiment.Base.{
  ℕ, ◌+◌, ◌≤◌, ◌<◌, ◌≡◌, sym, ◌∙◌, true, false, ◌&&◌, List, [], ◌∷◌, ltb, ◌==◌, arith, ◌⊎◌, inl,
  inr, Bool-cases,
}
use arbore_experiment.Chunk.{off_bound, Desc, end_offset, overlaps, off_lt, off_lt-ltb, Chunk}
use arbore_experiment.Content.{Content, reaches, has_part, have_in_memory}

-- A chunk of the list has the place.
abbrev pub Covers : ℕ → List Chunk → Type 0
Covers x [] = ⊥
Covers x (c ∷ cs) = ((c.desc.offset ≤ x) × (x < end_offset c.desc)) ⊎ Covers x cs

-- The part ends below 2 ^ 63, so its end is not negative.
abbrev pub Small : Desc → Type 0
Small d = d.offset + d.size < off_bound

abbrev pub AllSmall : List Chunk → Type 0
AllSmall [] = Unit
AllSmall (c ∷ cs) = Small c.desc × AllSmall cs

end_offset-Small : (d : Desc) → Small d → end_offset d < off_bound
unfolding end_offset
end_offset-Small d small = omega arith

reaches-Covers :
    (d : Desc) (next x : ℕ) (cs : List Chunk)
    → Small d
    → AllSmall cs
    → reaches d next cs ≡ true
    → next ≤ x
    → x < end_offset d
    → Covers x cs
unfolding reaches
reaches-Covers d next x [] sd sc h le lt = absurd (ground arith)
reaches-Covers d next x (c ∷ cs) sd sc h le lt =
    let as_numbers =
      off_lt-ltb (end_offset c.desc) (end_offset d) (end_offset-Small c.desc sc.0)
        (end_offset-Small d sd) in
    elim (Bool-cases (off_lt (end_offset c.desc) (end_offset d) && next == c.desc.offset)) [
      | inl on ↦ elim (Bool-cases (ltb x (end_offset c.desc))) [
        | inl here ↦ inl (ground arith)
        | inr later ↦
            inr (reaches-Covers d (end_offset c.desc) x cs sd sc.1 (rw on at h) (ground arith) lt)
      ]
      | inr last ↦ let at_next : (next == c.desc.offset) ≡ true = rw last at h in inl (ground arith)
    ]

has_part-Covers :
    (d : Desc) (x : ℕ) (cs : List Chunk)
    → Small d
    → AllSmall cs
    → has_part d cs ≡ true
    → d.offset ≤ x
    → x < end_offset d
    → Covers x cs
unfolding has_part
has_part-Covers d x [] sd sc h le lt = absurd (ground arith)
has_part-Covers d x (c ∷ cs) sd sc h le lt = elim (Bool-cases (overlaps d c.desc)) [
  | inr apart ↦ inr (has_part-Covers d x cs sd sc.1 (rw apart at h) le lt)
  | inl meet ↦ elim (Bool-cases (off_lt d.offset c.desc.offset)) [
    | inl behind ↦ absurd (unreached (rw (meet, behind) at h))
    | inr begins ↦
        let begins' : ltb d.offset c.desc.offset ≡ false =
          sym (off_lt-ltb d.offset c.desc.offset (omega arith) (omega (arith, sc.0))) ∙ begins in
        reaches-Covers d c.desc.offset x (c ∷ cs) sd sc (rw (meet, begins) at h) (ground arith) lt
  ]
]
  where
    unreached : false ≡ true → ⊥
    unreached e = absurd (ground arith)

-- If a part and all chunks of a content end below 2^63, and FileContentHaveChunk is true of the
-- part, then every place of the part lies in a chunk of the content.
pub have_in_memory-Covers :
    (d : Desc) (c : Content) (x : ℕ)
    → Small d
    → AllSmall c.chunks
    → have_in_memory d c ≡ true
    → d.offset ≤ x
    → x < end_offset d
    → Covers x c.chunks
unfolding have_in_memory
have_in_memory-Covers d c x sd sc h le lt = has_part-Covers d x c.chunks sd sc h le lt
