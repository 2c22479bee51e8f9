-- ===== src/Tree/Places.antt =====
-- Full names and paths: GetFullName of lib/files/file_entry.cpp against Path2File of
-- lib/files/cache_base.cpp.
pub mod Found
pub mod Removed
use arbore_experiment.Base.{
  ℕ, zero, suc, ◌+◌, ◌<◌, ◌≤◌, ◌≡◌, refl, sym, ap, ◌∙◌, Bool, true, false, ◌||◌, not, Option, none,
  some, List, [], ◌∷◌, ◌++◌, length, length-append, if◌then◌else◌, arith, inl, inr, Bool-cases,
}
use arbore_experiment.Netutil.{Str}
use arbore_experiment.StrMap.{StrMap, find}
use arbore_experiment.Tools.{is_one_of, stringtok, to_delimiter, skip_delimiters}
use arbore_experiment.Tools.Tokens.{Undelimited, stringtok_last, stringtok_next, stringtok-skip}
use arbore_experiment.Tree.{
  FileEntry, Memory, Access, done, ◌>>=◌, get_file, is_removed, parent_path, full_name,
}
use arbore_experiment.Tree.Paths.{
  Flags, Answer, Round, go_on, return, answer, child_of, is_hidden, is_empty, into_files,
  into_child, in_child, turn, round, after_round, walk, path2file,
}
use arbore_experiment.Tree.Invariant.{IsTree, IsDir}
use arbore_experiment.Tree.Invariant.Changes.{entry_at-some, files_at-IsDir}
use arbore_experiment.Tree.Invariant.Walks.{walk-no_token}

-- The way up from an object, to the path that GetFullName puts together.
data Climbs (m : Memory) : Option ℕ → Str → Str → Type 0 where
  top : (path : Str) → Climbs m none path path
  up :
      (p : ℕ) (e : FileEntry) (path out : Str)
      → m.cells p ≡ some e
      → Climbs m e.parent (e.name ++ b'/' ∷ path) out
      → Climbs m (some p) path out

abbrev Under : ℕ → Option ℕ → Type 0
Under f none = Unit
Under f (some p) = p < f

parent_path-Climbs :
    (f : ℕ) (m : Memory) (o : Option ℕ) (path out : Str)
    → IsTree m
    → Under f o
    → Climbs m o path out
    → parent_path f m o path ≡ done out
unfolding parent_path
parent_path-Climbs f m none path out t h (top _) = refl
parent_path-Climbs zero m (some p) path out t h (up _ e _ _ there c) = absurd (omega arith)
parent_path-Climbs (suc f) m (some p) path out t h (up _ e _ _ there c) =
    rw (entry_at-some m p e there)
      (parent_path-Climbs f m e.parent (e.name ++ b'/' ∷ path) out t (under e.parent refl) c)
  where
    under : (o : Option ℕ) → e.parent ≡ o → Under f o
    under none below = tt
    under (some q) below = let older = (t.parent p e q there below).older in omega (arith, older, h)

-- The file of a name in a directory: it is there, is removed or not, and its name is one token.
pub record Held (removed : Bool) (m : Memory) (dir : ℕ) (name : Str) (i : ℕ) : Type 0 where
  pub within : IsDir m dir
  pub listed : find within.files name ≡ some i
  pub entry : FileEntry
  pub there : m.cells i ≡ some entry
  pub named : entry.name ≡ name
  pub below : entry.parent ≡ some dir
  pub state : is_removed entry.stat ≡ removed
  pub first : ℕ
  pub others : Str
  pub splits : name ≡ first ∷ others
  pub token : Undelimited (b'/' ∷ []) (first ∷ others)

abbrev pub Shown : Memory → ℕ → Str → ℕ → Type 0
Shown = Held false

-- A directory below another one, by the names on the way.
pub data Linked (m : Memory) : ℕ → List Str → ℕ → Type 0 where
  here : (dir : ℕ) → Linked m dir [] dir
  down :
      (dir : ℕ) (name : Str) (j : ℕ) (names : List Str) (i : ℕ)
      → Shown m dir name j
      → IsDir m j
      → Linked m j names i
      → Linked m dir (name ∷ names) i

-- The names, each with a slash behind it.
abbrev pub steps : List Str → Str → Str
steps [] path = path
steps (name ∷ names) path = name ++ b'/' ∷ steps names path

Climbs-Linked :
    (m : Memory) (dir : ℕ) (names : List Str) (i : ℕ) (path out : Str)
    → Linked m dir names i
    → Climbs m (some dir) (steps names path) out
    → Climbs m (some i) path out
Climbs-Linked m dir [] i path out (here _) c = c
Climbs-Linked m dir (name ∷ names) i path out (down _ _ j _ _ s d l) c =
    Climbs-Linked m j names i path out l
      (up j s.entry (steps names path) out s.there (rw (s.below, s.named) c))

-- The root has no name and no parent.
pub record IsRoot (m : Memory) (root : ℕ) : Type 0 where
  pub dir : IsDir m root
  pub nameless : dir.entry.name ≡ []
  pub topmost : dir.entry.parent ≡ none

pub full_name-Linked :
    (f : ℕ) (m : Memory) (root : ℕ) (names : List Str) (dir : ℕ) (name : Str) (i : ℕ)
    → IsTree m
    → IsRoot m root
    → Linked m root names dir
    → Shown m dir name i
    → i < f
    → full_name f m i ≡ done (b'/' ∷ (steps names [] ++ name))
unfolding full_name
full_name-Linked f m root names dir name i t r l s h =
    let from_root : Climbs m (some root) (steps names []) (b'/' ∷ steps names []) =
      up root r.dir.entry (steps names []) _ r.dir.there (rw (r.topmost, r.nameless) (top _)) in
    let climb = Climbs-Linked m root names dir [] _ l from_root in
    let older = (t.parent i s.entry dir s.there s.below).older in
    rw
      (
        entry_at-some m i s.entry s.there,
        s.below,
        parent_path-Climbs f m (some dir) [] _ t (omega arith) climb,
        s.named,
      )
      refl
