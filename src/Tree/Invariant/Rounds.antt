-- ===== src/Tree/Invariant/Rounds.antt =====
-- A round of the loop of Path2File in lib/files/cache_base.cpp keeps the invariant of the tree.
use arbore_experiment.Base.{
  ℕ, ◌≡◌, refl, subst, Bool, true, false, ◌||◌, Option, none, some, if◌then◌else◌, inl, inr,
  Bool-cases,
}
use arbore_experiment.Netutil.{Str}
use arbore_experiment.StrMap.{StrMap, find}
use arbore_experiment.Tree.{FileEntry, Memory, clear_removed, get_file, rem_file}
use arbore_experiment.Tree.Paths.{
  Flags, Answer, Round, go_on, return, child_of, is_hidden, is_empty, into_files, into_child,
  not_found, restored, at_last, make_dir, place_dir, dir_in_place, created, uncreated, in_middle,
  in_child, turn, round,
}
use arbore_experiment.Tree.Invariant.{IsTree, IsDir, Keeps-refl}
use arbore_experiment.Tree.Invariant.Changes.{
  Does, does, bind-Does, weaken-Does, Good, Good-trans, entry_at-some, files_at-IsDir,
  change_stat-Good, Vacant, rem_file-Good, make_dir-Good,
}

-- The pointer is null, or an object is there.
abbrev pub Points : Memory → Option ℕ → Type 0
Points m none = Unit
Points m (some i) = (e : FileEntry) × (m.cells i ≡ some e)

-- An answer that leaves a tree with all objects, and that points to one of them.
pub record IsAnswer (m : Memory) (a : Answer) : Type 0 where
  pub good : Good m a.memory
  pub points : Points a.memory a.file

-- The child that was looked for is there, under its name.
abbrev Child : (m : Memory) → StrMap ℕ → Str → Option (ℕ × FileEntry) → Type 0
Child m fs name none = find fs name ≡ none
Child m fs name (some (i, e)) = (m.cells i ≡ some e) × (e.name ≡ name)

abbrev pub RoundGood : Memory → Round → Type 0
RoundGood m (go_on m' dir) = Good m m' × IsDir m' dir
RoundGood m (return a) = IsAnswer m a

pub stays : (m : Memory) → IsTree m → Good m m
stays m t = record { tree = t; keeps = Keeps-refl m }

null-IsAnswer :
    (m : Memory) → IsTree m → IsAnswer m (record { memory = m; file = none; filename = none })
null-IsAnswer m t = record { good = stays m t; points = tt }

into_child-Good :
    (m : Memory) (last : Bool) (i : ℕ) (e : FileEntry)
    → IsTree m
    → m.cells i ≡ some e
    → Does (RoundGood m) (into_child m last i)
unfolding into_child into_files
into_child-Good m last i e t there = rw (entry_at-some m i e there) (does (leads e.files refl))
  where
    leads : (fs : Option (StrMap ℕ)) → e.files ≡ fs → RoundGood m (into_files m last i fs)
    leads (some fs) h = (stays m t, record { entry = e; files = fs; there = there; holds = h })
    leads none h = record { good = stays m t; points = ends last }
      where
        ends : (last : Bool) → Points m (if last then some i else none)
        ends true = (e, there)
        ends false = tt

not_found-Good :
    (wants : Bool) (m : Memory) (name : Str) (dir : ℕ)
    → IsTree m
    → IsDir m dir
    → RoundGood m (not_found wants m name dir)
unfolding not_found
not_found-Good true m name dir t d = record { good = stays m t; points = (d.entry, d.there) }
not_found-Good false m name dir t d = null-IsAnswer m t

-- A pointer stays good.
Points-on :
    (m m' : Memory) (i : ℕ) (e : FileEntry) → Good m m' → m.cells i ≡ some e → Points m' (some i)
Points-on m m' i e g h = let (e', h', _, _) = g.keeps i e h in (e', h')

restored-Good :
    (restore : Bool) (m : Memory) (i : ℕ) (e : FileEntry)
    → IsTree m
    → m.cells i ≡ some e
    → Does (Good m) (restored restore m i)
unfolding restored
restored-Good true m i e t there = change_stat-Good clear_removed m i e t there
restored-Good false m i e t there = does (stays m t)

at_last-Good :
    (fl : Flags) (wants : Bool) (m : Memory) (name : Str) (dir : ℕ) (fs : StrMap ℕ)
    (child : Option (ℕ × FileEntry))
    → IsTree m
    → IsDir m dir
    → Child m fs name child
    → Does (RoundGood m) (at_last fl wants m name dir child)
unfolding at_last
at_last-Good fl wants m name dir fs none t d c = does (not_found-Good wants m name dir t d)
at_last-Good fl wants m name dir fs (some (i, e)) t d c =
    elim (Bool-cases (fl.restore_removed_file || fl.get_removed_file)) [
      | inl found ↦ rw found (
          bind-Does (restored fl.restore_removed_file m i) _
            (restored-Good fl.restore_removed_file m i e t c.0)
            (λ m' g. does (record { good = g; points = Points-on m m' i e g c.0 })))
      | inr hidden ↦ rw hidden (does (not_found-Good wants m name dir t d))
    ]

-- The directory for a name in the middle of a path.
abbrev Placed : Memory → Memory × ℕ → Type 0
Placed m (m', i) = Good m m' × IsDir m' i

dir_in_place-Placed :
    (m : Memory) (name : Str) (dir : ℕ) (d : IsDir m dir) (child : Option (ℕ × FileEntry))
    → IsTree m
    → Child m d.files name child
    → Does (Placed m) (dir_in_place m name dir child)
unfolding dir_in_place place_dir
dir_in_place-Placed m name dir d none t c =
    make_dir-Good m name dir t
      (record { entry = d.entry; files = d.files; there = d.there; holds = d.holds; unused = c })
dir_in_place-Placed m name dir d (some (i, e)) t c = place e.files refl
  where
    place : (fs : Option (StrMap ℕ)) → e.files ≡ fs → Does (Placed m) (place_dir m name dir i fs)
    place (some fs) h = does (stays m t, record { entry = e; files = fs; there = c.0; holds = h })
    place none h = bind-Does (rem_file m dir i) _ (rem_file-Good m dir i e t d c.0) (λ m' (g, v).
        weaken-Does (make_dir m' name dir)
          (make_dir-Good m' name dir g.tree (subst (Vacant m' dir) c.1 v))
          (λ (m2, j) (h, made). (Good-trans m m' m2 g h, made)))

-- What follows from a result of a later memory.
later_round : (m m' : Memory) (r : Round) → Good m m' → RoundGood m' r → RoundGood m r
later_round m m' (go_on m2 dir) g (h, d) = (Good-trans m m' m2 g h, d)
later_round m m' (return a) g h = record {
  good = Good-trans m m' a.memory g h.good;
  points = h.points;
}

created-Good :
    (fl : Flags) (m : Memory) (name : Str) (dir : ℕ) (d : IsDir m dir)
    (child : Option (ℕ × FileEntry))
    → IsTree m
    → Child m d.files name child
    → Does (RoundGood m) (created fl m name dir child)
unfolding created
created-Good fl m name dir d child t c =
    bind-Does (dir_in_place m name dir child) _ (dir_in_place-Placed m name dir d child t c)
      (λ (m1, i) (g, made).
        bind-Does (restored fl.restore_removed_file m1 i) _
          (restored-Good fl.restore_removed_file m1 i made.entry g.tree made.there)
          (λ m2 h.
            let (e, there, _, _) = h.keeps i made.entry made.there in
            let both = Good-trans m m1 m2 g h in
            weaken-Does (into_child m2 false i) (into_child-Good m2 false i e h.tree there)
              (λ r good. later_round m m2 r both good)))

in_middle-Good :
    (fl : Flags) (m : Memory) (name : Str) (dir : ℕ) (d : IsDir m dir)
    (child : Option (ℕ × FileEntry))
    → IsTree m
    → Child m d.files name child
    → Does (RoundGood m) (in_middle fl m name dir child)
unfolding in_middle uncreated
in_middle-Good fl m name dir d none t c = elim (Bool-cases fl.create_unknown_dirs) [
  | inl create ↦ rw create (created-Good fl m name dir d none t c)
  | inr keep ↦ rw keep (does (null-IsAnswer m t))
]
in_middle-Good fl m name dir d (some (i, e)) t c = elim (Bool-cases fl.create_unknown_dirs) [
  | inl create ↦ rw create (created-Good fl m name dir d (some (i, e)) t c)
  | inr keep ↦ rw keep (elim (Bool-cases fl.get_removed_file) [
    | inl removed ↦ rw removed (into_child-Good m false i e t c.0)
    | inr not_removed ↦ rw not_removed (does (null-IsAnswer m t))
  ])
]

in_child-Good :
    (m : Memory) (last : Bool) (fs : StrMap ℕ) (name : Str) (child : Option (ℕ × FileEntry))
    → IsTree m
    → Child m fs name child
    → Does (RoundGood m) (in_child m last child)
unfolding in_child
in_child-Good m last fs name none t c = does (null-IsAnswer m t)
in_child-Good m last fs name (some (i, e)) t c = into_child-Good m last i e t c.0

turn-Good :
    (fl : Flags) (wants : Bool) (m : Memory) (name rest : Str) (dir : ℕ) (d : IsDir m dir)
    (child : Option (ℕ × FileEntry))
    → IsTree m
    → Child m d.files name child
    → Does (RoundGood m) (turn fl wants m name rest dir child)
unfolding turn
turn-Good fl wants m name rest dir d child t c = elim (Bool-cases (is_hidden child)) [
  | inl hidden ↦ rw hidden (elim (Bool-cases (is_empty rest)) [
    | inl last ↦ rw last (at_last-Good fl wants m name dir d.files child t d c)
    | inr more ↦ rw more (in_middle-Good fl m name dir d child t c)
  ])
  | inr shown ↦ rw shown (in_child-Good m (is_empty rest) d.files name child t c)
]

child_of-Child :
    (m : Memory) (name : Str) (dir : ℕ) (d : IsDir m dir)
    → IsTree m
    → Does (Child m d.files name) (child_of m (find d.files name))
unfolding child_of
child_of-Child m name dir d t = look (find d.files name) refl
  where
    look : (o : Option ℕ) → find d.files name ≡ o → Does (Child m d.files name) (child_of m o)
    look none h = does h
    look (some i) h =
        let c = t.child dir d.entry d.files name i d.there d.holds h in
        rw (entry_at-some m i c.entry c.there) (does (c.there, c.named))

pub round-Good :
    (fl : Flags) (wants : Bool) (m : Memory) (name rest : Str) (dir : ℕ)
    → IsTree m
    → IsDir m dir
    → Does (RoundGood m) (round fl wants m name rest dir)
unfolding round get_file
round-Good fl wants m name rest dir t d = rw (files_at-IsDir m dir d) (
    bind-Does (child_of m (find d.files name)) _ (child_of-Child m name dir d t)
      (λ child c. turn-Good fl wants m name rest dir d child t c))
