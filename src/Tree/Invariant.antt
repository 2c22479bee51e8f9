-- ===== src/Tree/Invariant.antt =====
-- The invariant of the tree in memory (lib/files/dir_entry.cpp), and that a write keeps it.
pub mod Changes
pub mod Rounds
pub mod Walks
use arbore_experiment.Base.{
  ℕ, ◌<◌, ◌≡◌, refl, sym, ap, ◌∙◌, ◌⊎◌, Option, some, ◌==◌, if◌then◌else◌, arith, inl, inr,
  Bool-cases, ==_iff,
}
use arbore_experiment.Netutil.{Str}
use arbore_experiment.StrMap.{StrMap, find}
use arbore_experiment.Tree.{FileEntry, Memory, write}

-- A child of a directory: it is there, under its name, and points back.
pub record IsChild (m : Memory) (dir : ℕ) (name : Str) (i : ℕ) : Type 0 where
  pub entry : FileEntry
  pub there : m.cells i ≡ some entry
  pub named : entry.name ≡ name
  pub below : entry.parent ≡ some dir

-- A parent is older than its child.
pub record IsParent (m : Memory) (p i : ℕ) : Type 0 where
  pub entry : FileEntry
  pub there : m.cells p ≡ some entry
  pub older : p < i

pub record IsTree (m : Memory) : Type 0 where
  pub child :
      (dir : ℕ) (e : FileEntry) (fs : StrMap ℕ) (name : Str) (i : ℕ)
      → m.cells dir ≡ some e
      → e.files ≡ some fs
      → find fs name ≡ some i
      → IsChild m dir name i
  pub parent :
      (i : ℕ) (e : FileEntry) (p : ℕ) → m.cells i ≡ some e → e.parent ≡ some p → IsParent m p i
  pub fresh : (i : ℕ) (e : FileEntry) → m.cells i ≡ some e → i < m.next

-- The object is there and is a directory.
pub record IsDir (m : Memory) (i : ℕ) : Type 0 where
  pub entry : FileEntry
  pub files : StrMap ℕ
  pub there : m.cells i ≡ some entry
  pub holds : entry.files ≡ some files

-- Every object stays, with its name and its parent.
abbrev pub Keeps : Memory → Memory → Type 0
Keeps m m' =
    (j : ℕ) (e : FileEntry)
    → m.cells j ≡ some e
    → (e' : FileEntry) × (m'.cells j ≡ some e') × (e'.name ≡ e.name) × (e'.parent ≡ e.parent)

pub Keeps-refl : (m : Memory) → Keeps m m
Keeps-refl m j e h = (e, h, refl, refl)

pub Keeps-trans : (m n o : Memory) → Keeps m n → Keeps n o → Keeps m o
Keeps-trans m n o k l j e h =
    let (e1, h1, name1, parent1) = k j e h in
    let (e2, h2, name2, parent2) = l j e1 h1 in (e2, h2, name2 ∙ name1, parent2 ∙ parent1)

pub IsChild-Keeps :
    (m m' : Memory) (dir : ℕ) (name : Str) (i : ℕ)
    → Keeps m m'
    → IsChild m dir name i
    → IsChild m' dir name i
IsChild-Keeps m m' dir name i k c =
    let (e, there, named, below) = k i c.entry c.there in
    record { entry = e; there = there; named = named ∙ c.named; below = below ∙ c.below }

pub IsParent-Keeps : (m m' : Memory) (p i : ℕ) → Keeps m m' → IsParent m p i → IsParent m' p i
IsParent-Keeps m m' p i k c =
    let (e, there, _, _) = k p c.entry c.there in
    record { entry = e; there = there; older = c.older }

-- What a cell holds after a write.
pub at_write :
    (m : Memory) (i : ℕ) (e' : FileEntry) (j : ℕ) (e : FileEntry)
    → (write m i e').cells j ≡ some e
    → ((j ≡ i) × (e' ≡ e)) ⊎ (m.cells j ≡ some e)
unfolding write
at_write m i e' j e h = elim (Bool-cases (j == i)) [
  | inl same ↦ inl (ground arith, ground (arith, h, same))
  | inr other ↦ inr (ground (arith, h, other))
]

pub cell-write_self : (m : Memory) (i : ℕ) (e : FileEntry) → (write m i e).cells i ≡ some e
unfolding write
cell-write_self m i e = ground arith

pub write-Keeps :
    (m : Memory) (i : ℕ) (e e' : FileEntry)
    → m.cells i ≡ some e
    → e'.name ≡ e.name
    → e'.parent ≡ e.parent
    → Keeps m (write m i e')
unfolding write
write-Keeps m i e e' there name parent j d h = elim (Bool-cases (j == i)) [
  | inl same ↦
      let d_is_e : some d ≡ some e = sym h ∙ ap m.cells ((==_iff j i).0 same) ∙ there in
      (e', rw same refl, name ∙ ground (arith, d_is_e), parent ∙ ground (arith, d_is_e))
  | inr other ↦ (d, rw other h, refl, refl)
]

-- An object is written over: its name and parent stay, and what it holds are children.
pub write-IsTree :
    (m : Memory) (i : ℕ) (e e' : FileEntry)
    → IsTree m
    → m.cells i ≡ some e
    → e'.name ≡ e.name
    → e'.parent ≡ e.parent
    → ((fs : StrMap ℕ) (name : Str) (j : ℕ)
        → e'.files ≡ some fs
        → find fs name ≡ some j
        → IsChild m i name j)
    → IsTree (write m i e')
write-IsTree m i e e' t there name parent children =
    let k = write-Keeps m i e e' there name parent in
    record {
      child = λ dir d fs n j at holds is.
          IsChild-Keeps m (write m i e') dir n j k (elim (at_write m i e' dir d at) [
            | inl (same, new) ↦
                rw same (children fs n j (ap (λ (x : FileEntry). x.files) new ∙ holds) is)
            | inr old ↦ t.child dir d fs n j old holds is
          ]);
      parent = λ j d p at below.
          IsParent-Keeps m (write m i e') p j k (elim (at_write m i e' j d at) [
            | inl (same, new) ↦
                rw same
                  (t.parent i e p there (sym parent ∙ ap (λ (x : FileEntry). x.parent) new ∙ below))
            | inr old ↦ t.parent j d p old below
          ]);
      fresh = λ j d at. elim (at_write m i e' j d at) [
        | inl (same, new) ↦ rw same (unfold write in t.fresh i e there)
        | inr old ↦ unfold write in t.fresh j d old
      ];
    }
