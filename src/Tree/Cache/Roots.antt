-- ===== src/Tree/Cache/Roots.antt =====
-- The root that Load of lib/files/cache_base.cpp makes, and what a directory shows.
use arbore_experiment.Base.{
  ℕ, ◌+◌, ◌≡◌, refl, sym, ap, ◌∙◌, Bool, true, false, none, some, List, [], ◌∷◌, if◌then◌else◌,
  length, arith, inl, inr,
}
use arbore_experiment.Netutil.{Str}
use arbore_experiment.StrMap.{StrMap, find}
use arbore_experiment.StrMap.Order.{find-nil}
use arbore_experiment.Session.{SessionConfig}
use arbore_experiment.Tree.{
  default_stat, FileEntry, Memory, Access, done, bad_pointer, unbounded, ◌>>=◌, entry_at, pointed,
  write, allocate, new_file, new_dir, parent_path, full_name, is_removed, count_each,
  count_existant_files,
}
use arbore_experiment.Tree.Attributes.{set_attr, write_attr}
use arbore_experiment.Tree.Cache.{
  Reply, replies, no_such_file_or_dir, filled, fill_each, fill_dir, fill_found, new_tree,
}
use arbore_experiment.Tree.Invariant.{IsTree, IsDir, at_write, write-IsTree}
use arbore_experiment.Tree.Invariant.Changes.{entry_at-some, files_at-IsDir}
use arbore_experiment.Tree.Places.{IsRoot}

counted : ℕ → Access (List Str) → Access ℕ
counted n r = r >>= (λ names. done (n + length names))

counted-filled :
    (n : ℕ) (removed : Bool) (name : Str) (r : Access (List Str))
    → counted (if removed then n else n + 1) r ≡ counted n (filled removed false name r)
unfolding counted filled
counted-filled n true name r = refl
counted-filled n false name (done names) = ap done (omega arith)
counted-filled n false name bad_pointer = refl
counted-filled n false name unbounded = refl

count_each-entry :
    (m : Memory) (n : ℕ) (fs : StrMap ℕ) (o : Access FileEntry)
    → ((k : ℕ) → count_each m k fs ≡ counted k (fill_each (λ name. false) m fs))
    → (o >>= (λ e. count_each m (if is_removed e.stat then n else n + 1) fs))
      ≡ counted n
          (o >>= (λ e. filled (is_removed e.stat) false e.name (fill_each (λ name. false) m fs)))
unfolding counted
count_each-entry m n fs (done e) ih =
    ih (if is_removed e.stat then n else n + 1)
    ∙ (unfold counted in
        counted-filled n (is_removed e.stat) e.name (fill_each (λ name. false) m fs))
count_each-entry m n fs bad_pointer ih = refl
count_each-entry m n fs unbounded ih = refl

count_each-fill_each :
    (m : Memory) (fs : StrMap ℕ) (n : ℕ)
    → count_each m n fs ≡ counted n (fill_each (λ name. false) m fs)
unfolding count_each fill_each counted
count_each-fill_each m [] n = ap done (omega arith)
count_each-fill_each m ((name, i) ∷ fs) n =
    count_each-entry m n fs (entry_at m i) (λ k. count_each-fill_each m fs k)

abbrev pub number_of : Reply (List Str) → ℕ
number_of (replies names) = length names
number_of no_such_file_or_dir = 0

counted-fill_dir :
    (r : Access (List Str))
    → counted 0 r ≡ ((r >>= (λ names. done (replies names))) >>= (λ x. done (number_of x)))
unfolding counted
counted-fill_dir (done names) = ap done (omega arith)
counted-fill_dir bad_pointer = refl
counted-fill_dir unbounded = refl

-- For a directory, CountExistantFiles is the number of names that FillReadDir hands to a filler
-- that is never full.
pub count_existant_files-fill_found :
    (m : Memory) (dir : ℕ)
    → IsDir m dir
    → count_existant_files m dir
      ≡ (fill_found (λ name. false) m (some dir) >>= (λ r. done (number_of r)))
unfolding count_existant_files fill_found fill_dir
count_existant_files-fill_found m dir d =
    rw (files_at-IsDir m dir d, entry_at-some m dir d.entry d.there, d.holds)
      (count_each-fill_each m d.files 0 ∙ counted-fill_dir (fill_each (λ name. false) m d.files))

abbrev pub empty_memory : Memory
empty_memory = record { cells = λ i. none; next = 0 }

-- One object that has no parent and holds nothing.
alone-IsTree :
    (e : FileEntry)
    → e.parent ≡ none
    → e.files ≡ some []
    → IsTree (record (write empty_memory 0 e) { next = 1 })
alone-IsTree e topmost holds = record {
  child = λ dir d fs n j at has is. elim (at_write empty_memory 0 e dir d at) [
    | inl (same, new) ↦
        let files : some fs ≡ some [] =
          sym has ∙ ap (λ (x : FileEntry). x.files) (sym new) ∙ holds in
        let nil : fs ≡ [] = cc in
        let nothing : find fs n ≡ none = ap (λ g. find g n) nil ∙ find-nil n in absurd cc
    | inr old ↦ absurd cc
  ];
  parent = λ j d p at below. elim (at_write empty_memory 0 e j d at) [
    | inl (same, new) ↦
        let up : some p ≡ none = sym below ∙ ap (λ (x : FileEntry). x.parent) (sym new) ∙ topmost in
        absurd cc
    | inr old ↦ absurd cc
  ];
  fresh = λ j d at. elim (at_write empty_memory 0 e j d at) [
    | inl (same, new) ↦ omega (arith, same)
    | inr old ↦ absurd cc
  ];
}

-- Root.
pub new_tree-IsRoot :
    (uid gid : ℕ) (cfg : SessionConfig)
    → (m : Memory) × (cfg' : SessionConfig) × (new_tree uid gid empty_memory cfg
        ≡ done (0, m, cfg'))
      × IsTree m
      × IsRoot m 0
unfolding new_tree allocate new_dir new_file set_attr full_name parent_path entry_at pointed write
new_tree-IsRoot uid gid cfg =
    let e = new_dir [] (default_stat uid gid) none in
    let e' = record e { stat = record (e.stat) { mode = 16832 } } in
    let m1 = record (write empty_memory 0 e) { next = 1 } in
    (
      write m1 0 e',
      write_attr false [] e.stat e'.stat cfg,
      refl,
      write-IsTree m1 0 e e' (alone-IsTree e refl refl) refl refl refl (λ fs n j holds is.
          let nil : fs ≡ [] = cc in
          let nothing : find fs n ≡ none = ap (λ g. find g n) nil ∙ find-nil n in absurd cc),
      record {
        dir = record { entry = e'; files = []; there = refl; holds = refl };
        nameless = refl;
        topmost = refl;
      },
    )
