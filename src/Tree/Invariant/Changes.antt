-- ===== src/Tree/Invariant/Changes.antt =====
-- The operations of lib/files/dir_entry.cpp and file_entry.cpp keep the invariant of the tree.
use arbore_experiment.Base.{
  ℕ, ◌+◌, ◌≡◌, ◌≢◌, refl, sym, ap, ◌∙◌, none, some, [], arith, inl, inr, Bool-cases,
}
use arbore_experiment.Netutil.{Str}
use arbore_experiment.StrMap.{str_eq, StrMap, find, put, erase}
use arbore_experiment.StrMap.Order.{str_eq_iff, find-nil, find-put, find-erase}
use arbore_experiment.Tree.{
  Stat, FileEntry, Memory, Access, done, bad_pointer, unbounded, ◌>>=◌, entry_at, pointed, write,
  allocate, new_file, new_dir, default_stat, change_stat, files_at, write_files, rem_file, add_file,
  delete_old,
}
use arbore_experiment.Tree.Paths.{make_dir}
use arbore_experiment.Tree.Invariant.{
  IsParent-Keeps, IsChild, IsTree, IsDir, Keeps, Keeps-trans, IsChild-Keeps, at_write,
  cell-write_self, write-Keeps, write-IsTree,
}

-- The operation ends, with a result that has the property.
pub data Does {ℓ} {A : Type ℓ} (P : A → Type 0) : Access A → Type ℓ where
  does : {a : A} → P a → Does P (done a)

pub bind-Does {ℓ κ} :
    {A : Type ℓ} {B : Type κ} {P : A → Type 0} {Q : B → Type 0} (r : Access A) (f : A → Access B)
    → Does P r
    → ((a : A) → P a → Does Q (f a))
    → Does Q (r >>= f)
bind-Does (done a) f (does p) next = next a p
bind-Does bad_pointer f d next = elim d [ ]
bind-Does unbounded f d next = elim d [ ]

pub weaken-Does {ℓ} :
    {A : Type ℓ} {P Q : A → Type 0} (r : Access A) → Does P r → ((a : A) → P a → Q a) → Does Q r
weaken-Does (done a) (does p) more = does (more a p)
weaken-Does bad_pointer d more = elim d [ ]
weaken-Does unbounded d more = elim d [ ]

-- The memory is a tree, and all objects of the one before are there.
pub record Good (m m' : Memory) : Type 0 where
  pub tree : IsTree m'
  pub keeps : Keeps m m'

pub Good-trans : (m n o : Memory) → Good m n → Good n o → Good m o
Good-trans m n o g h = record { tree = h.tree; keeps = Keeps-trans m n o g.keeps h.keeps }

pub entry_at-some :
    (m : Memory) (i : ℕ) (e : FileEntry) → m.cells i ≡ some e → entry_at m i ≡ done e
unfolding entry_at pointed
entry_at-some m i e h = rw h refl

pub files_at-IsDir : (m : Memory) (i : ℕ) (d : IsDir m i) → files_at m i ≡ done d.files
unfolding files_at pointed
files_at-IsDir m i d = rw (entry_at-some m i d.entry d.there, d.holds) refl

pub change_stat-Good :
    (f : Stat → Stat) (m : Memory) (i : ℕ) (e : FileEntry)
    → IsTree m
    → m.cells i ≡ some e
    → Does (Good m) (change_stat f m i)
unfolding change_stat
change_stat-Good f m i e t there =
    let e' = record e { stat = f e.stat } in
    rw (entry_at-some m i e there) (
      does (record {
        tree =
            write-IsTree m i e e' t there refl refl
              (λ fs n j holds is. t.child i e fs n j there holds is);
        keeps = write-Keeps m i e e' there refl refl;
      }))

write_files-Good :
    (m : Memory) (dir : ℕ) (e : FileEntry) (fs : StrMap ℕ)
    → IsTree m
    → m.cells dir ≡ some e
    → ((n : Str) (j : ℕ) → find fs n ≡ some j → IsChild m dir n j)
    → Good m (write m dir (record e { files = some fs }))
write_files-Good m dir e fs t there children = record {
  tree =
      write-IsTree m dir e (record e { files = some fs }) t there refl refl
        (λ fs' n j holds is. children n j (ap (λ g. find g n) (only fs' holds) ∙ is));
  keeps = write-Keeps m dir e (record e { files = some fs }) there refl refl;
}
  where
    only : (fs' : StrMap ℕ) → some fs ≡ some fs' → fs ≡ fs'
    only fs' h = cc

-- The directory has no file of this name.
pub record Vacant (m : Memory) (dir : ℕ) (name : Str) : Type 0 where
  pub entry : FileEntry
  pub files : StrMap ℕ
  pub there : m.cells dir ≡ some entry
  pub holds : entry.files ≡ some files
  pub unused : find files name ≡ none

pub rem_file-Good :
    (m : Memory) (dir i : ℕ) (e : FileEntry)
    → IsTree m
    → IsDir m dir
    → m.cells i ≡ some e
    → Does (λ m'. Good m m' × Vacant m' dir e.name) (rem_file m dir i)
unfolding rem_file write_files
rem_file-Good m dir i e t d there =
    let fs = erase e.name d.files in
    rw (files_at-IsDir m dir d, entry_at-some m i e there, entry_at-some m dir d.entry d.there)
      (does (
        write_files-Good m dir d.entry fs t d.there
            (λ n j is. t.child dir d.entry d.files n j d.there d.holds (left n j is)),
        record {
          entry = record d.entry { files = some fs };
          files = fs;
          there = cell-write_self m dir _;
          holds = refl;
          unused = find-erase e.name d.files e.name ∙ rw ((str_eq_iff e.name e.name).1 refl) refl;
        },
      ))
  where
    left : (n : Str) (j : ℕ) → find (erase e.name d.files) n ≡ some j → find d.files n ≡ some j
    left n j is = elim (Bool-cases (str_eq n e.name)) [
      | inl same ↦ absurd (ground (arith, find-erase e.name d.files n, same, is))
      | inr other ↦ ground (arith, find-erase e.name d.files n, other, is)
    ]

-- A new object at a fresh address.
old_cell :
    (m : Memory) (e : FileEntry) (j : ℕ) (d : FileEntry)
    → IsTree m
    → m.cells j ≡ some d
    → (write m m.next e).cells j ≡ some d
unfolding write
old_cell m e j d t h = ground (arith, t.fresh j d h, h)

allocate-Good :
    (m : Memory) (e : FileEntry) (dir : ℕ) (d : FileEntry)
    → IsTree m
    → e.parent ≡ some dir
    → e.files ≡ some []
    → m.cells dir ≡ some d
    → Good m (record (write m m.next e) { next = m.next + 1 })
allocate-Good m e dir d t below none_yet there =
    let m' = record (write m m.next e) { next = m.next + 1 } in
    let k : Keeps m m' = λ j c h. (c, old_cell m e j c t h, refl, refl) in
    record {
      keeps = k;
      tree = record {
        child = λ i c fs n j at holds is.
            IsChild-Keeps m m' i n j k (elim (at_write m m.next e i c at) [
              | inl (same, new) ↦ absurd (empty fs n j c new holds is)
              | inr old ↦ t.child i c fs n j old holds is
            ]);
        parent = λ j c p at up. elim (at_write m m.next e j c at) [
          | inl (same, new) ↦
              let e' : some p ≡ some dir =
                sym up ∙ ap (λ (x : FileEntry). x.parent) (sym new) ∙ below in
              let p_is : p ≡ dir = cc in
              rw (p_is, same)
                (record {
                  entry = d;
                  there = old_cell m e dir d t there;
                  older = t.fresh dir d there;
                })
          | inr old ↦ IsParent-Keeps m m' p j k (t.parent j c p old up)
        ];
        fresh = λ j c at. elim (at_write m m.next e j c at) [
          | inl (same, new) ↦ omega (arith, same)
          | inr old ↦ omega (arith, t.fresh j c old)
        ];
      };
    }
  where
    empty :
        (fs : StrMap ℕ) (n : Str) (j : ℕ) (c : FileEntry)
        → e ≡ c
        → c.files ≡ some fs
        → find fs n ≡ some j
        → ⊥
    empty fs n j c new holds is =
        let no_files : some fs ≡ some [] =
          sym holds ∙ ap (λ (x : FileEntry). x.files) (sym new) ∙ none_yet in
        let nil : fs ≡ [] = cc in
        let nothing : find fs n ≡ none = ap (λ g. find g n) nil ∙ find-nil n in cc

pub add_file-Good :
    (m : Memory) (dir i : ℕ) (e : FileEntry)
    → IsTree m
    → Vacant m dir e.name
    → m.cells i ≡ some e
    → e.parent ≡ some dir
    → i ≢ dir
    → Does (λ m'. Good m m' × (m'.cells i ≡ some e)) (add_file m dir i)
unfolding add_file delete_old write_files files_at pointed write
add_file-Good m dir i e t v there below apart =
    rw
      (
        entry_at-some m dir v.entry v.there,
        v.holds,
        entry_at-some m i e there,
        v.unused,
        entry_at-some m dir v.entry v.there,
      )
      (does (
        write_files-Good m dir v.entry (put e.name i v.files) t v.there children,
        ground (arith, apart, there),
      ))
  where
    children : (n : Str) (j : ℕ) → find (put e.name i v.files) n ≡ some j → IsChild m dir n j
    children n j is = elim (Bool-cases (str_eq n e.name)) [
      | inl same ↦
          let n_is : n ≡ e.name = (str_eq_iff n e.name).0 same in
          let j_is : i ≡ j = ground (arith, find-put e.name i v.files n, same, is) in
          rw (n_is, ← j_is) (record { entry = e; there = there; named = refl; below = below })
      | inr other ↦
          t.child dir v.entry v.files n j v.there v.holds
            (ground (arith, find-put e.name i v.files n, other, is))
    ]

pub make_dir-Good :
    (m : Memory) (name : Str) (dir : ℕ)
    → IsTree m
    → Vacant m dir name
    → Does (λ (m', i). Good m m' × IsDir m' i) (make_dir m name dir)
unfolding make_dir allocate new_dir new_file
make_dir-Good m name dir t v =
    let e = new_dir name (default_stat 0 0) (some dir) in
    let m1 = record (write m m.next e) { next = m.next + 1 } in
    let g = allocate-Good m e dir v.entry t refl refl v.there in
    let v1 : Vacant m1 dir name = record {
      entry = v.entry;
      files = v.files;
      there = old_cell m e dir v.entry t v.there;
      holds = v.holds;
      unused = v.unused;
    } in
    bind-Does (add_file m1 dir m.next) _
      (add_file-Good m1 dir m.next e g.tree v1 (cell-write_self m m.next e) refl
        (λ same. absurd (omega (arith, same, t.fresh dir v.entry v.there))))
      (λ m' (h, made).
        does (Good-trans m m1 m' g h, record { entry = e; files = []; there = made; holds = refl }))
