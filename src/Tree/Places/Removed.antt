-- ===== src/Tree/Places/Removed.antt =====
-- Files that are marked as removed, in lib/files/file_entry.cpp and Path2File of
-- lib/files/cache_base.cpp.

use arbore_experiment.Base.{
  ℕ, ◌≡◌, refl, ap, ◌∙◌, Bool, true, false, none, some, List, [], ◌∷◌, ◌++◌, if◌then◌else◌, inl,
  inr, Bool-cases, ◌==◌, ==_iff,
}
use arbore_experiment.Netutil.{Str}
use arbore_experiment.Tree.{
  FileEntry, Memory, done, get_file, is_removed, Stat, clear_removed, with_bit, write, change_stat,
}
use arbore_experiment.Tree.Paths.{
  Flags, no_flags, restored, at_last, not_found, child_of, is_hidden, is_empty, turn, round,
  after_round, path2file,
}
use arbore_experiment.Tree.Invariant.Changes.{entry_at-some, files_at-IsDir}
use mathlib.Core.Path.{fun_ext}
use arbore_experiment.Tree.Places.Found.{path2file-Linked}
use arbore_experiment.Tree.Places.{Held, Linked, steps}

-- A bit that is set already.
clear_removed-same : (s : Stat) → is_removed s ≡ true → clear_removed s ≡ s
unfolding clear_removed is_removed with_bit
clear_removed-same s h = rw h refl

write-same : (m : Memory) (i : ℕ) (e : FileEntry) → m.cells i ≡ some e → write m i e ≡ m
unfolding write
write-same m i e h = ap (λ c. record m { cells = c }) (fun_ext same)
  where
    same : (j : ℕ) → (if j == i then some e else m.cells j) ≡ m.cells j
    same j = elim (Bool-cases (j == i)) [
      | inl hit ↦ rw (hit, (==_iff j i).0 hit, h) refl
      | inr miss ↦ rw miss refl
    ]

-- ClearRemoved sets the bit that it should clear.
restored-removed :
    (m : Memory) (i : ℕ) (e : FileEntry)
    → m.cells i ≡ some e
    → is_removed e.stat ≡ true
    → restored true m i ≡ done m
unfolding restored change_stat
restored-removed m i e there removed =
    let same : record e { stat = clear_removed e.stat } ≡ e =
      ap (λ s. record e { stat = s }) (clear_removed-same e.stat removed) in
    rw (entry_at-some m i e there, same, write-same m i e there) refl

round-removed :
    (fl : Flags) (wants : Bool) (m : Memory) (name : Str) (dir i : ℕ)
    → (s : Held true m dir name i)
    → round fl wants m name [] dir ≡ at_last fl wants m name dir (some (i, s.entry))
unfolding round get_file child_of turn is_hidden is_empty
round-removed fl wants m name dir i s =
    rw (files_at-IsDir m dir s.within, s.listed, entry_at-some m i s.entry s.there, s.state) refl

-- For a removed file below directories that are not removed, under names without a slash:
-- Path2File with RESTORE_REMOVED_FILE answers with the file and leaves the memory as it is, and
-- Path2File without flags still answers null.
pub path2file-removed :
    (fl : Flags) (m : Memory) (root : ℕ) (names : List Str) (dir : ℕ) (name : Str) (i : ℕ)
    → fl.restore_removed_file ≡ true
    → Linked m root names dir
    → (s : Held true m dir name i)
    → (path2file fl false m root (b'/' ∷ (steps names [] ++ name))
        ≡ done (record { memory = m; file = some i; filename = none }))
      × (path2file no_flags false m root (b'/' ∷ (steps names [] ++ name))
          ≡ done (record { memory = m; file = none; filename = none }))
unfolding at_last not_found after_round
path2file-removed fl m root names dir name i restore l s =
    let (g, walked) =
      path2file-Linked fl false m root names dir name s.first s.others l s.splits s.token in
    let (g', walked') =
      path2file-Linked no_flags false m root names dir name s.first s.others l s.splits s.token in
    (
      walked
          ∙ rw
              (
                round-removed fl false m name dir i s,
                restore,
                restored-removed m i s.entry s.there s.state,
              )
              refl,
      walked' ∙ rw (round-removed no_flags false m name dir i s) refl,
    )
