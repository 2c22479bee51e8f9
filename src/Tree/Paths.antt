-- ===== src/Tree/Paths.antt =====
-- Path2File of lib/files/cache_base.cpp.
use arbore_experiment.Base.{
  ℕ, zero, suc, Bool, true, false, ◌||◌, not, Option, none, some, [], ◌∷◌, if◌then◌else◌, length,
}
use arbore_experiment.Netutil.{Str}
use arbore_experiment.StrMap.{StrMap}
use arbore_experiment.Tools.{stringtok}
use arbore_experiment.Tree.{
  default_stat, FileEntry, Memory, Access, done, unbounded, ◌>>=◌, entry_at, allocate, new_dir,
  is_removed, clear_removed, change_stat, get_file, rem_file, add_file,
}

-- p2f_flags.
pub record Flags : Type 0 where
  pub create_unknown_dirs : Bool
  pub restore_removed_file : Bool
  pub get_removed_file : Bool

abbrev pub no_flags : Flags
no_flags = record {
  create_unknown_dirs = false;
  restore_removed_file = false;
  get_removed_file = false;
}

-- What Path2File answers: the file or null, and the name that it stores through `filename`.
pub record Answer : Type 0 where
  pub memory : Memory
  pub file : Option ℕ
  pub filename : Option Str

-- A round of the loop goes on in a directory, or returns.
pub data Round : Type 0 where
  go_on : Memory → ℕ → Round
  return : Answer → Round

abbrev pub answer : Memory → Option ℕ → Round
answer m i = return (record { memory = m; file = i; filename = none })

-- A child with its object.
unfoldable pub child_of : Memory → Option ℕ → Access (Option (ℕ × FileEntry))
child_of m none = done none
child_of m (some i) = do e ← entry_at m i; done (some (i, e))

unfoldable pub is_hidden : Option (ℕ × FileEntry) → Bool
is_hidden none = true
is_hidden (some (i, e)) = is_removed e.stat

unfoldable pub is_empty : Str → Bool
is_empty [] = true
is_empty (c ∷ cs) = false

-- The end of a round: the child is a directory, or the path ends here, or it leads to nothing.
unfoldable pub into_files : Memory → Bool → ℕ → Option (StrMap ℕ) → Round
into_files m last i (some fs) = go_on m i
into_files m last i none = answer m (if last then some i else none)

unfoldable pub into_child : Memory → Bool → ℕ → Access Round
unfolding into_files
into_child m last i = do e ← entry_at m i; done (into_files m last i e.files)

-- The last name of the path stands for no file, or for a removed one.
unfoldable pub not_found : Bool → Memory → Str → ℕ → Round
not_found wants m name dir =
    if wants
    then return (record { memory = m; file = some dir; filename = some name })
    else answer m none

unfoldable pub restored : Bool → Memory → ℕ → Access Memory
restored restore m i = if restore then change_stat clear_removed m i else done m

unfoldable pub at_last : Flags → Bool → Memory → Str → ℕ → Option (ℕ × FileEntry) → Access Round
unfolding not_found restored
at_last fl wants m name dir none = done (not_found wants m name dir)
at_last fl wants m name dir (some (i, e)) =
    if fl.restore_removed_file || fl.get_removed_file
    then (do m' ← restored fl.restore_removed_file m i; done (answer m' (some i)))
    else done (not_found wants m name dir)

-- A directory that is missing or removed, in the middle of the path: a file in its place goes.
unfoldable pub make_dir : Memory → Str → ℕ → Access (Memory × ℕ)
make_dir m name dir = do
  let made = allocate m (new_dir name (default_stat 0 0) (some dir))
  m' ← add_file made.0 dir made.1
  done (m', made.1)

unfoldable pub place_dir : Memory → Str → ℕ → ℕ → Option (StrMap ℕ) → Access (Memory × ℕ)
unfolding make_dir
place_dir m name dir i (some fs) = done (m, i)
place_dir m name dir i none = do m' ← rem_file m dir i; make_dir m' name dir

unfoldable pub dir_in_place : Memory → Str → ℕ → Option (ℕ × FileEntry) → Access (Memory × ℕ)
unfolding make_dir place_dir
dir_in_place m name dir none = make_dir m name dir
dir_in_place m name dir (some (i, e)) = place_dir m name dir i e.files

unfoldable pub created : Flags → Memory → Str → ℕ → Option (ℕ × FileEntry) → Access Round
unfolding dir_in_place restored into_child
created fl m name dir child = do
  made ← dir_in_place m name dir child
  m' ← restored fl.restore_removed_file made.0 made.1
  into_child m' false made.1

unfoldable pub uncreated : Flags → Memory → Option (ℕ × FileEntry) → Access Round
unfolding into_child
uncreated fl m none = done (answer m none)
uncreated fl m (some (i, e)) =
    if fl.get_removed_file then into_child m false i else done (answer m none)

unfoldable pub in_middle : Flags → Memory → Str → ℕ → Option (ℕ × FileEntry) → Access Round
unfolding created uncreated
in_middle fl m name dir child =
    if fl.create_unknown_dirs then created fl m name dir child else uncreated fl m child

-- A child that is there and not removed.
unfoldable pub in_child : Memory → Bool → Option (ℕ × FileEntry) → Access Round
unfolding into_child
in_child m last none = done (answer m none)
in_child m last (some (i, e)) = into_child m last i

unfoldable pub turn : Flags → Bool → Memory → Str → Str → ℕ → Option (ℕ × FileEntry) → Access Round
unfolding is_hidden is_empty in_child at_last in_middle
turn fl wants m name rest dir child =
    if not (is_hidden child)
    then in_child m (is_empty rest) child
    else if is_empty rest
    then at_last fl wants m name dir child
    else in_middle fl m name dir child

unfoldable pub round : Flags → Bool → Memory → Str → Str → ℕ → Access Round
unfolding child_of turn
round fl wants m name rest dir = do
  found ← get_file m dir name
  child ← child_of m found
  turn fl wants m name rest dir child

unfoldable pub after_round : (Memory → ℕ → Access Answer) → Round → Access Answer
after_round more (go_on m dir) = more m dir
after_round more (return a) = done a

-- The loop, over so many tokens at most.
unfoldable pub walk : ℕ → Flags → Bool → Memory → Str × Str → ℕ → Access Answer
unfolding after_round
walk f fl wants m ([], rest) dir = done (record { memory = m; file = some dir; filename = none })
walk zero fl wants m (c ∷ cs, rest) dir = unbounded
walk (suc f) fl wants m (c ∷ cs, rest) dir = do
  r ← round fl wants m (c ∷ cs) rest dir
  after_round (λ m' dir'. walk f fl wants m' (stringtok (b'/' ∷ []) rest) dir') r

-- Path2File, in the tree below this root.
unfoldable pub path2file : Flags → Bool → Memory → ℕ → Str → Access Answer
path2file fl wants m root path =
    walk (suc (length path)) fl wants m (stringtok (b'/' ∷ []) path) root
