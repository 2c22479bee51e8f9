-- ===== src/Tree/Places/Found.antt =====
-- Path2File of lib/files/cache_base.cpp on the path of a file that is there.
use mathlib.Core.List.{append_assoc}
use arbore_experiment.Base.{
  ℕ, zero, suc, ◌<◌, ◌≡◌, refl, sym, ap, ◌∙◌, Bool, true, false, Option, none, some, List, [], ◌∷◌,
  ◌++◌, length, length-append, arith,
}
use arbore_experiment.Netutil.{Str}
use arbore_experiment.StrMap.{StrMap}
use arbore_experiment.Tools.{is_one_of, stringtok, to_delimiter, skip_delimiters}
use arbore_experiment.Tools.Tokens.{Undelimited, stringtok_last, stringtok_next, stringtok-skip}
use arbore_experiment.Tree.{FileEntry, Memory, Access, done, ◌>>=◌, get_file, full_name}
use arbore_experiment.Tree.Paths.{
  Flags, Answer, go_on, child_of, is_hidden, is_empty, into_files, into_child, in_child, turn,
  round, after_round, walk, path2file,
}
use arbore_experiment.Tree.Invariant.{IsTree, IsDir}
use arbore_experiment.Tree.Invariant.Changes.{entry_at-some, files_at-IsDir}
use arbore_experiment.Tree.Invariant.Walks.{walk-no_token}
use arbore_experiment.Tree.Places.{Shown, Linked, here, down, steps, IsRoot, full_name-Linked}

abbrev pub slash : Str
slash = b'/' ∷ []

stringtok-step :
    (name : Str) (c : ℕ) (cs rest : Str)
    → name ≡ c ∷ cs
    → Undelimited slash (c ∷ cs)
    → stringtok slash (name ++ b'/' ∷ rest) ≡ (name, rest)
unfolding is_one_of
stringtok-step name c cs rest e u = rw e (stringtok_next slash c cs b'/' rest u refl)

-- A round at a file that is there goes into it.
round-Shown :
    (fl : Flags) (wants : Bool) (m : Memory) (name rest : Str) (dir i : ℕ)
    → (s : Shown m dir name i)
    → round fl wants m name rest dir ≡ done (into_files m (is_empty rest) i s.entry.files)
unfolding round get_file child_of turn is_hidden in_child into_child
round-Shown fl wants m name rest dir i s =
    rw
      (
        files_at-IsDir m dir s.within,
        s.listed,
        entry_at-some m i s.entry s.there,
        s.state,
        entry_at-some m i s.entry s.there,
      )
      refl

-- What Path2File is left with once it has come to the directory of the last name.
abbrev pub LastRound : ℕ → Flags → Bool → Memory → Str → ℕ → Access Answer
LastRound f fl wants m name dir =
    round fl wants m name [] dir
    >>= after_round (λ m' dir'. walk f fl wants m' (stringtok slash []) dir')

walk-round :
    (f : ℕ) (fl : Flags) (wants : Bool) (m : Memory) (name : Str) (c : ℕ) (cs rest : Str) (dir : ℕ)
    → name ≡ c ∷ cs
    → walk (suc f) fl wants m (name, rest) dir ≡ (
        round fl wants m name rest dir
        >>= after_round (λ m' dir'. walk f fl wants m' (stringtok slash rest) dir'))
unfolding walk
walk-round f fl wants m name c cs rest dir e = rw e refl

is_empty-false : (s : Str) → 0 < length s → is_empty s ≡ false
unfolding is_empty
is_empty-false [] h = absurd (omega arith)
is_empty-false (c ∷ cs) h = refl

into_files-IsDir :
    (m : Memory) (dir i : ℕ) (name : Str) (s : Shown m dir name i) (d : IsDir m i)
    → (last : Bool) → into_files m last i s.entry.files ≡ go_on m i
unfolding into_files
into_files-IsDir m dir i name s d last =
    let same : some s.entry ≡ some d.entry = sym s.there ∙ d.there in
    let e : s.entry ≡ d.entry = cc in rw (ap (λ (x : FileEntry). x.files) e ∙ d.holds) refl

walk-Linked :
    (f : ℕ) (fl : Flags) (wants : Bool) (m : Memory) (dir : ℕ) (names : List Str) (dir' : ℕ)
    (name : Str) (c : ℕ) (cs : Str)
    → Linked m dir names dir'
    → name ≡ c ∷ cs
    → Undelimited slash (c ∷ cs)
    → length (steps names [] ++ name) < f
    → (g : ℕ) × (walk f fl wants m (stringtok slash (steps names [] ++ name)) dir
        ≡ LastRound g fl wants m name dir')
unfolding after_round
walk-Linked zero fl wants m dir names dir' name c cs l e u h = absurd (omega arith)
walk-Linked (suc f) fl wants m dir [] dir' name c cs (here _) e u h =
    let last : stringtok slash name ≡ (name, []) = rw e (stringtok_last slash c cs u) in
    (f, rw last (walk-round f fl wants m name c cs [] dir e))
walk-Linked (suc f) fl wants m dir (n ∷ names) dir' name c cs (down _ _ j _ _ s d l) e u h =
    let rest = steps names [] ++ name in
    let token : stringtok slash ((n ++ b'/' ∷ steps names []) ++ name) ≡ (n, rest) =
      ap (stringtok slash) (append_assoc n (b'/' ∷ steps names []) name)
      ∙ stringtok-step n s.first s.others rest s.splits s.token in
    let some_name : 0 < length name = omega (arith, ap (λ (t : Str). length t) e) in
    let more : is_empty rest ≡ false =
      is_empty-false rest (omega (arith, length-append (steps names []) name)) in
    let shorter : length rest < f = omega (
      arith,
      length-append n (b'/' ∷ rest),
      ap (λ (t : Str). length t) (append_assoc n (b'/' ∷ steps names []) name),
    ) in
    let (g, later) = walk-Linked f fl wants m j names dir' name c cs l e u shorter in
    (
      g,
      rw
          (
            token,
            walk-round f fl wants m n s.first s.others rest dir s.splits,
            round-Shown fl wants m n rest dir j s,
            into_files-IsDir m dir j n s d (is_empty rest),
          )
          later,
    )

no_more : (stringtok slash []).0 ≡ []
unfolding stringtok to_delimiter skip_delimiters
no_more = refl

found_last :
    (g : ℕ) (fl : Flags) (wants : Bool) (m : Memory) (dir : ℕ) (name : Str) (i : ℕ)
    → (s : Shown m dir name i)
    → LastRound g fl wants m name dir ≡ done (record { memory = m; file = some i; filename = none })
unfolding after_round into_files is_empty
found_last g fl wants m dir name i s =
    rw (round-Shown fl wants m name [] dir i s) (ends s.entry.files)
  where
    ends :
        (fs : Option (StrMap ℕ))
        → after_round
            (λ m' dir'. walk g fl wants m' (stringtok slash []) dir')
            (into_files m true i fs)
          ≡ done (record { memory = m; file = some i; filename = none })
    ends none = refl
    ends (some fs) = walk-no_token g fl wants m (stringtok slash []) i no_more

pub path2file-Linked :
    (fl : Flags) (wants : Bool) (m : Memory) (root : ℕ) (names : List Str) (dir : ℕ) (name : Str)
    (c : ℕ) (cs : Str)
    → Linked m root names dir
    → name ≡ c ∷ cs
    → Undelimited slash (c ∷ cs)
    → (g : ℕ) × (path2file fl wants m root (b'/' ∷ (steps names [] ++ name))
        ≡ LastRound g fl wants m name dir)
unfolding path2file is_one_of
path2file-Linked fl wants m root names dir name c cs l e u =
    let s = steps names [] ++ name in
    let (g, walked) =
      walk-Linked (suc (length (b'/' ∷ s))) fl wants m root names dir name c cs l e u
        (omega arith) in
    (g, rw (stringtok-skip slash b'/' s refl) walked)

-- In a well-formed tree, for a file that is not removed, below directories that are not removed,
-- under names without a slash: GetFullName gives a path, and Path2File of that path, with any
-- flags, answers with the file and leaves the memory as it is.
pub path2file-full_name :
    (fl : Flags) (wants : Bool) (m : Memory) (root : ℕ) (names : List Str) (dir : ℕ) (name : Str)
    (i f : ℕ)
    → IsTree m
    → IsRoot m root
    → Linked m root names dir
    → Shown m dir name i
    → i < f
    → (path : Str) × (full_name f m i ≡ done path)
      × (path2file fl wants m root path
          ≡ done (record { memory = m; file = some i; filename = none }))
path2file-full_name fl wants m root names dir name i f t r l s h =
    let (g, walked) =
      path2file-Linked fl wants m root names dir name s.first s.others l s.splits s.token in
    (
      b'/' ∷ (steps names [] ++ name),
      full_name-Linked f m root names dir name i t r l s h,
      walked ∙ found_last g fl wants m dir name i s,
    )
