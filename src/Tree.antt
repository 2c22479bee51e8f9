-- ===== src/Tree.antt =====
-- lib/files/file_entry.cpp and dir_entry.cpp: the files and directories that a host knows. They
-- are objects in memory that point to each other, and their attributes are kept in tree_cfg.
pub mod Attributes
pub mod Invariant
pub mod Paths
pub mod Places
pub mod Cache
use arbore_experiment.Base.{
  ℕ, zero, suc, ◌+◌, ◌-◌, ◌/◌, ◌%◌, Bool, true, false, ◌&&◌, ◌||◌, not, Option, none, some, List,
  [], ◌∷◌, ◌++◌, ◌==◌, if◌then◌else◌,
}
use arbore_experiment.Key.{Key, lt, of_word, to_bool}
use arbore_experiment.Netutil.{Str}
use arbore_experiment.Dht.{insert}
use arbore_experiment.StrMap.{StrMap, find, put, erase}
use arbore_experiment.Session.{SessionConfig, set_text, set_uint32, get_text, get_uint32}

-- pf_stat, with the fields of FilePermissions.
pub record Stat : Type 0 where
  pub size : ℕ
  pub atime : ℕ
  pub mtime : ℕ
  pub ctime : ℕ
  pub meta_mtime : ℕ
  pub pf_mode : ℕ
  pub mode : ℕ
  pub uid : ℕ
  pub gid : ℕ

-- Tests and changes of one bit of a word.
unfoldable pub has_bit : ℕ → ℕ → Bool
has_bit b m = (m / b) % 2 == 1

unfoldable pub with_bit : ℕ → ℕ → ℕ
with_bit b m = if has_bit b m then m else m + b

unfoldable pub without_bit : ℕ → ℕ → ℕ
without_bit b m = if has_bit b m then m - b else m

abbrev pub s_ifreg : ℕ
s_ifreg = 32768

abbrev pub s_ifdir : ℕ
s_ifdir = 16384

abbrev pub s_pf_removed : ℕ
s_pf_removed = 1

-- pf_stat(), for a process with this user and group: S_IFREG | S_IRUSR | S_IWUSR.
unfoldable pub default_stat : ℕ → ℕ → Stat
default_stat uid gid = record {
  size = 0;
  atime = 0;
  mtime = 0;
  ctime = 0;
  meta_mtime = 0;
  pf_mode = 0;
  mode = 33152;
  uid = uid;
  gid = gid;
}

-- operator==, which leaves nothing out.
unfoldable pub same_stat : Stat → Stat → Bool
same_stat s t =
    s.size == t.size
    && s.atime == t.atime
    && s.mtime == t.mtime
    && s.ctime == t.ctime
    && s.meta_mtime == t.meta_mtime
    && s.pf_mode == t.pf_mode
    && s.mode == t.mode
    && s.uid == t.uid
    && s.gid == t.gid

-- A FileEntry; a DirEntry has its files, and a plain file has none of these.
pub record FileEntry : Type 0 where
  pub name : Str
  pub stat : Stat
  pub parent : Option ℕ
  pub sharers : List Key
  pub files : Option (StrMap ℕ)

-- The objects by their addresses, and the address that `new` gives next.
pub record Memory : Type 0 where
  pub cells : ℕ → Option FileEntry
  pub next : ℕ

-- How an operation on the memory ends: it is done, goes through a pointer to nothing, or, in the
-- model only, was given too few rounds.
pub data Access {ℓ} (A : Type ℓ) : Type ℓ where
  done : A → Access A
  bad_pointer : Access A
  unbounded : Access A

infixl 5 ◌>>=◌
abbrev pub ◌>>=◌ {ℓ κ} : {A : Type ℓ} {B : Type κ} → Access A → (A → Access B) → Access B
done a >>= f = f a
bad_pointer >>= f = bad_pointer
unbounded >>= f = unbounded

unfoldable pub pointed {ℓ} : {A : Type ℓ} → Option A → Access A
pointed none = bad_pointer
pointed (some a) = done a

unfoldable pub entry_at : Memory → ℕ → Access FileEntry
unfolding pointed
entry_at m i = pointed (m.cells i)

unfoldable pub write : Memory → ℕ → FileEntry → Memory
write m i e = record m { cells = λ j. if j == i then some e else m.cells j }

unfoldable pub free : Memory → ℕ → Memory
free m i = record m { cells = λ j. if j == i then none else m.cells j }

unfoldable pub allocate : Memory → FileEntry → Memory × ℕ
allocate m e = (record (write m m.next e) { next = m.next + 1 }, m.next)

-- The constructors, of a file and of a directory.
unfoldable pub new_file : Str → Stat → Option ℕ → FileEntry
new_file name stat parent = record {
  name = name;
  stat = stat;
  parent = parent;
  sharers = [];
  files = none;
}

unfoldable pub dir_mode : Stat → Stat
unfolding has_bit with_bit without_bit
dir_mode s = record s { mode = with_bit s_ifdir (without_bit s_ifreg s.mode) }

unfoldable pub new_dir : Str → Stat → Option ℕ → FileEntry
new_dir name stat parent = record (new_file name (dir_mode stat) parent) { files = some [] }

-- GetFullName: the loop over the parents, at most so many.
unfoldable pub parent_path : ℕ → Memory → Option ℕ → Str → Access Str
parent_path f m none path = done path
parent_path zero m (some p) path = unbounded
parent_path (suc f) m (some p) path = do
  e ← entry_at m p
  parent_path f m e.parent (e.name ++ b'/' ∷ path)

unfoldable pub full_name : ℕ → Memory → ℕ → Access Str
full_name f m i = do e ← entry_at m i; path ← parent_path f m e.parent []; done (path ++ e.name)

-- IsChildOf.
unfoldable pub has_parent : ℕ → Memory → Option ℕ → ℕ → Access Bool
has_parent f m none i = done false
has_parent zero m (some p) i = unbounded
has_parent (suc f) m (some p) i =
    let rest = entry_at m p >>= (λ e. has_parent f m e.parent i) in
    if p == i then done true else rest

unfoldable pub is_child_of : ℕ → Memory → ℕ → ℕ → Access Bool
is_child_of f m i j = do e ← entry_at m i; has_parent f m e.parent j

-- IsRemoved, SetRemoved and ClearRemoved.
unfoldable pub is_removed : Stat → Bool
unfolding has_bit
is_removed s = has_bit s_pf_removed s.pf_mode

unfoldable pub set_removed : Stat → Stat
unfolding has_bit with_bit
set_removed s = record s { pf_mode = with_bit s_pf_removed s.pf_mode }

unfoldable pub clear_removed : Stat → Stat
unfolding has_bit with_bit
clear_removed s = record s { pf_mode = with_bit s_pf_removed s.pf_mode }

-- A change of the attributes of one object.
unfoldable pub change_stat : (Stat → Stat) → Memory → ℕ → Access Memory
change_stat f m i = do e ← entry_at m i; done (write m i (record e { stat = f e.stat }))

-- What a directory holds: dynamic_cast<DirEntry*> of a plain file gives a null pointer.
unfoldable pub files_at : Memory → ℕ → Access (StrMap ℕ)
unfolding pointed
files_at m i = do e ← entry_at m i; pointed e.files

unfoldable pub write_files : Memory → ℕ → StrMap ℕ → Access Memory
write_files m i fs = do e ← entry_at m i; done (write m i (record e { files = some fs }))

-- GetFile, RemFile and CountExistantFiles of a DirEntry.
unfoldable pub get_file : Memory → ℕ → Str → Access (Option ℕ)
get_file m dir name = do fs ← files_at m dir; done (find fs name)

unfoldable pub rem_file : Memory → ℕ → ℕ → Access Memory
rem_file m dir i = do fs ← files_at m dir; e ← entry_at m i; write_files m dir (erase e.name fs)

unfoldable pub count_each : Memory → ℕ → StrMap ℕ → Access ℕ
count_each m n [] = done n
count_each m n ((name, i) ∷ fs) = do
  e ← entry_at m i
  count_each m (if is_removed e.stat then n else n + 1) fs

unfoldable pub count_existant_files : Memory → ℕ → Access ℕ
count_existant_files m dir = do fs ← files_at m dir; count_each m 0 fs

-- The destructors; that of a directory deletes what it holds.
unfoldable pub delete_each : (Memory → ℕ → Access Memory) → Memory → StrMap ℕ → Access Memory
delete_each delete m [] = done m
delete_each delete m ((name, i) ∷ fs) = do m' ← delete m i; delete_each delete m' fs

unfoldable pub held_by : Option (StrMap ℕ) → StrMap ℕ
held_by none = []
held_by (some fs) = fs

unfoldable pub delete_entry : ℕ → Memory → ℕ → Access Memory
unfolding held_by
delete_entry zero m i = unbounded
delete_entry (suc f) m i = do
  e ← entry_at m i
  m' ← delete_each (λ m j. delete_entry f m j) m (held_by e.files)
  done (free m' i)

-- AddFile deletes the file of that name, if there is one.
unfoldable pub delete_old : Memory → Option ℕ → Access Memory
delete_old m none = done m
delete_old m (some i) = delete_entry m.next m i

unfoldable pub add_file : Memory → ℕ → ℕ → Access Memory
unfolding delete_old
add_file m dir i = do
  fs ← files_at m dir
  e ← entry_at m i
  m' ← delete_old m (find fs e.name)
  write_files m' dir (put e.name i fs)
