-- ===== src/Tests/Trees.antt =====
-- Runs of lib/util/session_config.cpp, lib/files/file_entry.cpp and lib/files/cache_base.cpp.
use arbore_experiment.Base.{
  ℕ, zero, suc, ◌<◌, ◌≡◌, refl, sym, ap, ◌∙◌, inl, true, false, Option, none, some, [], ◌∷◌, arith,
  Bool-cases, inr,
}
use arbore_experiment.Netutil.{Str}
use arbore_experiment.StrMap.{StrMap, str_eq, find}
use arbore_experiment.StrMap.Order.{str_eq_iff}
use arbore_experiment.Tools.{is_one_of}
use arbore_experiment.Tree.{
  Stat, FileEntry, Memory, done, ◌>>=◌, full_name, is_removed, has_bit, count_existant_files,
}
use arbore_experiment.Tree.Cache.{fill_found}
use arbore_experiment.Tree.Cache.Roots.{number_of, count_existant_files-fill_found}
use arbore_experiment.Tree.Paths.{Flags, no_flags, path2file}
use arbore_experiment.Tree.Invariant.{IsChild, IsParent, IsTree, IsDir}
use arbore_experiment.Tree.Invariant.Changes.{Does}
use arbore_experiment.Tree.Invariant.Walks.{path2file-IsAnswer}
use arbore_experiment.Tree.Invariant.Rounds.{IsAnswer}
use arbore_experiment.Tree.Places.{Held, Shown, Linked, here, down, IsRoot}
use arbore_experiment.Tree.Places.Found.{path2file-full_name}
use arbore_experiment.Tree.Places.Removed.{path2file-removed}

abbrev name_a : Str
name_a = b'a' ∷ []

abbrev name_b : Str
name_b = b'b' ∷ []

abbrev name_gone : Str
name_gone = b'c' ∷ []

abbrev plain_stat : Stat
plain_stat = record {
  size = 0;
  atime = 0;
  mtime = 0;
  ctime = 0;
  meta_mtime = 0;
  pf_mode = 0;
  mode = 16832;
  uid = 0;
  gid = 0;
}

-- The root holds the directory a, which holds the file b and the removed file c.
abbrev root_entry : FileEntry
root_entry = record {
  name = [];
  stat = plain_stat;
  parent = none;
  sharers = [];
  files = some ((name_a, 1) ∷ []);
}

abbrev entry_a : FileEntry
entry_a = record {
  name = name_a;
  stat = plain_stat;
  parent = some 0;
  sharers = [];
  files = some ((name_b, 2) ∷ (name_gone, 3) ∷ []);
}

abbrev entry_b : FileEntry
entry_b = record { name = name_b; stat = plain_stat; parent = some 1; sharers = []; files = none }

abbrev entry_gone : FileEntry
entry_gone = record {
  name = name_gone;
  stat = record plain_stat { pf_mode = 1 };
  parent = some 1;
  sharers = [];
  files = none;
}

abbrev cells_at : ℕ → Option FileEntry
cells_at zero = some root_entry
cells_at (suc zero) = some entry_a
cells_at (suc (suc zero)) = some entry_b
cells_at (suc (suc (suc zero))) = some entry_gone
cells_at (suc (suc (suc (suc n)))) = none

abbrev files_memory : Memory
files_memory = record { cells = cells_at; next = 4 }

same_some {ℓ} : {A : Type ℓ} (a b : A) → some a ≡ some b → a ≡ b
same_some a b h = cc

files_are :
    (e' e : FileEntry) (fs' fs : StrMap ℕ) (name : Str) (i : ℕ)
    → some e' ≡ some e
    → e.files ≡ some fs
    → e'.files ≡ some fs'
    → find fs name ≡ some i
    → find fs' name ≡ some i
files_are e' e fs' fs name i at holds holds' is =
    let same =
      same_some fs' fs (sym holds' ∙ ap (λ (x : FileEntry). x.files) (same_some e' e at) ∙ holds) in
    ap (λ g. find g name) same ∙ is

some_not_none {ℓ} : {A : Type ℓ} (a : A) → some a ≡ none → ⊥
some_not_none a h = cc

IsChild-at :
    (dir : ℕ) (e : FileEntry) (fs : StrMap ℕ) (name : Str) (i : ℕ)
    → cells_at dir ≡ some e
    → e.files ≡ some fs
    → find fs name ≡ some i
    → IsChild files_memory dir name i
unfolding find
IsChild-at zero e fs name i at holds is =
    let is' = files_are root_entry e ((name_a, 1) ∷ []) fs name i at holds refl is in
    elim (Bool-cases (str_eq name name_a)) [
      | inl hit ↦
          let n = (str_eq_iff name name_a).0 hit in
          let j : 1 ≡ i = ground (arith, is', hit) in
          rw (n, ← j) (record { entry = entry_a; there = refl; named = refl; below = refl })
      | inr miss ↦ absurd (ground (arith, is', miss))
    ]
IsChild-at (suc zero) e fs name i at holds is =
    let is' = files_are entry_a e ((name_b, 2) ∷ (name_gone, 3) ∷ []) fs name i at holds refl is in
    elim (Bool-cases (str_eq name name_b)) [
      | inl hit ↦
          let n = (str_eq_iff name name_b).0 hit in
          let j : 2 ≡ i = ground (arith, is', hit) in
          rw (n, ← j) (record { entry = entry_b; there = refl; named = refl; below = refl })
      | inr miss ↦ elim (Bool-cases (str_eq name name_gone)) [
        | inl hit ↦
            let n = (str_eq_iff name name_gone).0 hit in
            let j : 3 ≡ i = ground (arith, is', miss, hit) in
            rw (n, ← j) (record { entry = entry_gone; there = refl; named = refl; below = refl })
        | inr other ↦ absurd (ground (arith, is', miss, other))
      ]
    ]
IsChild-at (suc (suc zero)) e fs name i at holds is =
    absurd (
      some_not_none fs (sym holds ∙ sym (ap (λ (x : FileEntry). x.files) (same_some entry_b e at))))
IsChild-at (suc (suc (suc zero))) e fs name i at holds is = absurd (
    some_not_none fs
      (sym holds ∙ sym (ap (λ (x : FileEntry). x.files) (same_some entry_gone e at))))
IsChild-at (suc (suc (suc (suc n)))) e fs name i at holds is = absurd (some_not_none e (sym at))

parent_at :
    (i : ℕ) (e : FileEntry) (p : ℕ)
    → cells_at i ≡ some e
    → e.parent ≡ some p
    → IsParent files_memory p i
parent_at zero e p at up =
    absurd (
      some_not_none p (sym up ∙ sym (ap (λ (x : FileEntry). x.parent) (same_some root_entry e at))))
parent_at (suc zero) e p at up =
    let q = same_some 0 p (ap (λ (x : FileEntry). x.parent) (same_some entry_a e at) ∙ up) in
    rw (← q) (record { entry = root_entry; there = refl; older = omega arith })
parent_at (suc (suc zero)) e p at up =
    let q = same_some 1 p (ap (λ (x : FileEntry). x.parent) (same_some entry_b e at) ∙ up) in
    rw (← q) (record { entry = entry_a; there = refl; older = omega arith })
parent_at (suc (suc (suc zero))) e p at up =
    let q = same_some 1 p (ap (λ (x : FileEntry). x.parent) (same_some entry_gone e at) ∙ up) in
    rw (← q) (record { entry = entry_a; there = refl; older = omega arith })
parent_at (suc (suc (suc (suc n)))) e p at up = absurd (some_not_none e (sym at))

fresh_at : (i : ℕ) (e : FileEntry) → cells_at i ≡ some e → i < 4
fresh_at zero e at = omega arith
fresh_at (suc zero) e at = omega arith
fresh_at (suc (suc zero)) e at = omega arith
fresh_at (suc (suc (suc zero))) e at = omega arith
fresh_at (suc (suc (suc (suc n)))) e at = absurd (some_not_none e (sym at))

files_memory-IsTree : IsTree files_memory
files_memory-IsTree = record { child = IsChild-at; parent = parent_at; fresh = fresh_at }

abbrev root_dir : IsDir files_memory 0
root_dir = record { entry = root_entry; files = (name_a, 1) ∷ []; there = refl; holds = refl }

abbrev dir_a : IsDir files_memory 1
dir_a = record {
  entry = entry_a;
  files = (name_b, 2) ∷ (name_gone, 3) ∷ [];
  there = refl;
  holds = refl;
}

a-Shown : Shown files_memory 0 name_a 1
unfolding find str_eq is_removed has_bit is_one_of
a-Shown = record {
  within = root_dir;
  listed = refl;
  entry = entry_a;
  there = refl;
  named = refl;
  below = refl;
  state = refl;
  first = b'a';
  others = [];
  splits = refl;
  token = (refl, tt);
}

b-Shown : Shown files_memory 1 name_b 2
unfolding find str_eq is_removed has_bit is_one_of
b-Shown = record {
  within = dir_a;
  listed = refl;
  entry = entry_b;
  there = refl;
  named = refl;
  below = refl;
  state = refl;
  first = b'b';
  others = [];
  splits = refl;
  token = (refl, tt);
}

gone-Held : Held true files_memory 1 name_gone 3
unfolding find str_eq is_removed has_bit is_one_of
gone-Held = record {
  within = dir_a;
  listed = refl;
  entry = entry_gone;
  there = refl;
  named = refl;
  below = refl;
  state = refl;
  first = b'c';
  others = [];
  splits = refl;
  token = (refl, tt);
}

to_a : Linked files_memory 0 (name_a ∷ []) 1
to_a = down 0 name_a 1 [] 1 a-Shown dir_a (here 1)

files_memory-IsRoot : IsRoot files_memory 0
files_memory-IsRoot = record { dir = root_dir; nameless = refl; topmost = refl }

path2file-full_name_example :
    (path : Str) × (full_name 4 files_memory 2 ≡ done path)
    × (path2file no_flags false files_memory 0 path
        ≡ done (record { memory = files_memory; file = some 2; filename = none }))
path2file-full_name_example =
    path2file-full_name no_flags false files_memory 0 (name_a ∷ []) 1 name_b 2 4 files_memory-IsTree
      files_memory-IsRoot to_a b-Shown (omega arith)

abbrev restore_flag : Flags
restore_flag = record no_flags { restore_removed_file = true }

path2file-removed_example :
    (path2file restore_flag false files_memory 0 (b'/' ∷ b'a' ∷ b'/' ∷ b'c' ∷ [])
      ≡ done (record { memory = files_memory; file = some 3; filename = none }))
    × (path2file no_flags false files_memory 0 (b'/' ∷ b'a' ∷ b'/' ∷ b'c' ∷ [])
        ≡ done (record { memory = files_memory; file = none; filename = none }))
path2file-removed_example =
    path2file-removed restore_flag files_memory 0 (name_a ∷ []) 1 name_gone 3 refl to_a gone-Held

path2file-IsAnswer_example : Does (IsAnswer files_memory) (
    path2file
      (record no_flags { create_unknown_dirs = true })
      false
      files_memory
      0
      (b'/' ∷ b'x' ∷ b'/' ∷ b'y' ∷ []))
path2file-IsAnswer_example =
    path2file-IsAnswer (record no_flags { create_unknown_dirs = true }) false files_memory 0
      (b'/' ∷ b'x' ∷ b'/' ∷ b'y' ∷ []) files_memory-IsTree root_dir

count_existant_files-fill_found_example :
    count_existant_files files_memory 1
    ≡ (fill_found (λ name. false) files_memory (some 1) >>= (λ r. done (number_of r)))
count_existant_files-fill_found_example = count_existant_files-fill_found files_memory 1 dir_a
