-- ===== src/Tree/Cache.antt =====
-- The other operations of lib/files/cache_base.cpp on the tree. SetAttr, which the subclasses
-- define, gets the Stat that ChOwn and ChMod answer here.
pub mod Roots
use arbore_experiment.Base.{
  ℕ, zero, suc, ◌+◌, Bool, true, false, not, Option, none, some, List, [], ◌∷◌, if◌then◌else◌,
}
use arbore_experiment.Netutil.{Str}
use arbore_experiment.StrMap.{StrMap}
use arbore_experiment.Session.{SessionConfig}
use arbore_experiment.Tools.{stringtok}
use arbore_experiment.Tree.{
  Stat, default_stat, FileEntry, Memory, Access, done, bad_pointer, ◌>>=◌, entry_at, allocate,
  new_dir, is_removed, held_by,
}
use arbore_experiment.Tree.Attributes.{set_attr}
use arbore_experiment.Tree.Paths.{Flags, no_flags, Answer, is_empty, path2file}

-- A method that returns or throws NoSuchFileOrDir.
pub data Reply {ℓ} (A : Type ℓ) : Type ℓ where
  replies : A → Reply A
  no_such_file_or_dir : Reply A

-- Path2File while there may be no tree.
unfoldable pub path_to_file : Flags → Bool → Memory → Option ℕ → Str → Access Answer
path_to_file fl wants m none path =
    if is_empty (stringtok (b'/' ∷ []) path).0
    then done (record { memory = m; file = none; filename = none })
    else bad_pointer
path_to_file fl wants m (some root) path = path2file fl wants m root path

unfoldable pub stat_of : Memory → Option ℕ → Access (Reply Stat)
stat_of m none = done no_such_file_or_dir
stat_of m (some i) = do e ← entry_at m i; done (replies e.stat)

-- GetAttr.
unfoldable pub get_attr : Memory → Option ℕ → Str → Access (Reply Stat)
unfolding stat_of
get_attr m tree path = do a ← path_to_file no_flags false m tree path; stat_of a.memory a.file

unfoldable pub changed : (Stat → Stat) → Reply Stat → Reply Stat
changed f (replies s) = replies (f s)
changed f no_such_file_or_dir = no_such_file_or_dir

-- ChOwn and ChMod: the attributes that they give to SetAttr.
unfoldable pub ch_own : ℕ → Memory → Option ℕ → Str → ℕ → ℕ → Access (Reply Stat)
unfolding changed
ch_own now m tree path uid gid = do
  s ← get_attr m tree path
  done (changed (λ s. record s { uid = uid; gid = gid; meta_mtime = now }) s)

unfoldable pub ch_mod : ℕ → Memory → Option ℕ → Str → ℕ → Access (Reply Stat)
unfolding changed
ch_mod now m tree path mode = do
  s ← get_attr m tree path
  done (changed (λ s. record s { mode = mode; meta_mtime = now }) s)

unfoldable pub is_there : Option ℕ → Bool
is_there none = false
is_there (some i) = true

-- FileExists.
unfoldable pub file_exists : Memory → Option ℕ → Str → Access Bool
unfolding is_there
file_exists m tree path = do a ← path_to_file no_flags false m tree path; done (is_there a.file)

-- FillReadDir: the names that the filler is given, up to the one at which it is full.
unfoldable pub filled : Bool → Bool → Str → Access (List Str) → Access (List Str)
filled true full name rest = rest
filled false true name rest = done (name ∷ [])
filled false false name rest = do names ← rest; done (name ∷ names)

unfoldable pub fill_each : (Str → Bool) → Memory → StrMap ℕ → Access (List Str)
unfolding filled
fill_each full m [] = done []
fill_each full m ((name, i) ∷ fs) = do
  e ← entry_at m i
  filled (is_removed e.stat) (full e.name) e.name (fill_each full m fs)

unfoldable pub fill_dir : (Str → Bool) → Memory → Option (StrMap ℕ) → Access (Reply (List Str))
fill_dir full m none = done no_such_file_or_dir
fill_dir full m (some fs) = do names ← fill_each full m fs; done (replies names)

unfoldable pub fill_found : (Str → Bool) → Memory → Option ℕ → Access (Reply (List Str))
unfolding fill_dir
fill_found full m none = done no_such_file_or_dir
fill_found full m (some i) = do e ← entry_at m i; fill_dir full m e.files

unfoldable pub fill_read_dir : (Str → Bool) → Memory → Option ℕ → Str → Access (Reply (List Str))
unfolding fill_found
fill_read_dir full m tree path = do
  a ← path_to_file no_flags false m tree path
  fill_found full a.memory a.file

-- Load up to the call of BuildTree: the root, with its attributes; S_IFDIR | S_IRWXU.
unfoldable pub new_tree : ℕ → ℕ → Memory → SessionConfig → Access (ℕ × Memory × SessionConfig)
new_tree uid gid m cfg = do
  let made = allocate m (new_dir [] (default_stat uid gid) none)
  e ← entry_at made.0 made.1
  written ← set_attr 0 false (record (e.stat) { mode = 16832 }) made.1 made.0 cfg
  done (made.1, written.0, written.1)
