-- ===== src/Config/Load.antt =====
-- MyConfig::Load of lib/util/pf_config.cpp, and the copy of a section.
use arbore_experiment.Base.{
  ℕ, zero, suc, ◌+◌, Bool, true, false, ◌&&◌, ◌||◌, not, Option, none, some, List, [], ◌∷◌, ◌++◌,
  map, ◌==◌, if◌then◌else◌,
}
use arbore_experiment.Netutil.{Str, to_nul}
use arbore_experiment.StrMap.{str_eq, StrMap, find, put}
use arbore_experiment.Tools.{stringtok, skip_delimiters}
use arbore_experiment.Tree.{Access, done, unbounded, ◌>>=◌, pointed}
use arbore_experiment.Config.{
  Item, Section, Config, clone, set_value, set_found, insert_section, write, get_section, get_named,
  is_nothing, defaults, any_missing,
}

unfoldable pub section_at : Config → ℕ → Access Section
unfolding pointed
section_at c i = pointed (c.cells i)

-- The copy constructor of a section.
unfoldable pub clone_items : StrMap Item → StrMap Item
clone_items is = map (λ (l, i). (l, clone i)) is

unfoldable pub copied : Section → List (Str × ℕ) → Section
copied s subs = record s { name = []; items = clone_items s.items; sections = subs }

unfoldable pub copy_each :
    (Config → ℕ → Access (Config × ℕ))
    → Config
    → List (Str × ℕ)
    → List (Str × ℕ)
    → Access (Config × List (Str × ℕ))
copy_each copy c [] subs = done (c, subs)
copy_each copy c ((l, i) ∷ ss) subs = do
  made ← copy c i
  copy_each copy made.0 ss (insert_section l made.1 subs)

unfoldable pub copy_section : ℕ → Config → ℕ → Access (Config × ℕ)
unfolding section_at copied copy_each
copy_section zero c i = unbounded
copy_section (suc f) c i = do
  s ← section_at c i
  subs ← copy_each (λ c' j. copy_section f c' j) c s.sections []
  let n = subs.0.next
  done (record (write subs.0 n (copied s subs.1)) { next = n + 1 }, n)

-- AddSection of a made section, to its parent or to the configuration.
unfoldable pub enter : Config → Option ℕ → Str → ℕ → Access Config
enter c none label i = done (record c { sections = insert_section label i c.sections })
enter c (some p) label i = do
  s ← section_at c p
  done (write c p (record s { sections = insert_section label i s.sections }))

-- What Load has read so far: the section it is in, and whether there was an error.
pub record Reader : Type 0 where
  pub config : Config
  pub section : Option ℕ
  pub error : Bool

abbrev pub failed : Reader → Reader
failed r = record r { error = true }

abbrev pub space : Str
space = b' ' ∷ []

unfoldable pub has_char : ℕ → Str → Bool
has_char c [] = false
has_char c (x ∷ xs) = x == c || has_char c xs

-- A line with `=`. The section that has the same label and this name, if there is one.
unfoldable pub siblings : Config → Option ℕ → Access (List (Str × ℕ))
siblings c none = done c.sections
siblings c (some p) = do s ← section_at c p; done s.sections

unfoldable pub is_name_item : Option Str → Str → Bool
is_name_item none label = false
is_name_item (some l) label = str_eq l label

unfoldable pub put_item : Reader → ℕ → Section → Str → Item → Str → Reader
put_item r i s label item value =
    let (item', accepted) = set_value (set_found item) value in
    record r {
      config = write r.config i (record s { items = put label item' s.items });
      error = r.error || not accepted;
    }

unfoldable pub put_name : Reader → ℕ → Section → Str → Item → Str → Option ℕ → Reader
unfolding put_item
put_name r i s label item value (some j) = failed r
put_name r i s label item value none = put_item r i (record s { name = value }) label item value

unfoldable pub with_value : Reader → ℕ → Section → Str → Item → Str → Access Reader
unfolding siblings is_name_item put_name put_item is_nothing
with_value r i s label item value =
    if is_nothing value
    then done (failed r)
    else if is_name_item s.name_item label
    then (do
      ss ← siblings r.config s.parent
      done (put_name r i s label item value (get_named r.config ss s.label value)))
    else done (put_item r i s label item value)

unfoldable pub with_item : Reader → ℕ → Section → Str → Str → Option Item → Access Reader
unfolding with_value
with_item r i s label rest none = done (failed r)
with_item r i s label rest (some item) =
    with_value r i s label item (skip_delimiters (b' ' ∷ b'=' ∷ b'\t' ∷ []) rest)

unfoldable pub item_line : Reader → Option ℕ → Str → Access Reader
unfolding with_item
item_line r none line = done (failed r)
item_line r (some i) line = do
  s ← section_at r.config i
  let token = stringtok space line
  with_item r i s token.0 token.1 (find s.items token.0)

-- A line that begins with `}`.
unfoldable pub end_line : Reader → Option ℕ → Access Reader
unfolding is_nothing
end_line r none = done (failed r)
end_line r (some i) = do
  s ← section_at r.config i
  let filled = defaults s.items
  done (record r {
    config = write r.config i (record s { items = filled.0 });
    section = s.parent;
    error = r.error || (s.copy && is_nothing s.name) || filled.1 || any_missing r.config s.sections;
  })

-- A line that opens a section; a multiple section is copied.
unfoldable pub open_copy : Reader → ℕ → Section → Access Reader
unfolding enter
open_copy r i s = do
  made ← copy_section r.config.next r.config i
  t ← section_at made.0 made.1
  c ← enter (write made.0 made.1 (record t { copy = true })) s.parent s.label made.1
  done (record r { config = c; section = some made.1 })

unfoldable pub enter_section : Reader → ℕ → Section → Access Reader
unfolding open_copy
enter_section r i s = if s.multiple then open_copy r i s else done (record r { section = some i })

unfoldable pub opened : Reader → Option ℕ → Access Reader
unfolding enter_section
opened r none = done (record r { section = none; error = true })
opened r (some i) = do
  s ← section_at r.config i
  let s' = record s { found = true }
  enter_section (record r { config = write r.config i s' }) i s'

-- The text between a newline and the next one; what is behind the last one is a line as well.
unfoldable pub all_lines : Str → Str → List Str
unfolding is_nothing
all_lines line [] = if is_nothing line then [] else line ∷ []
all_lines line (c ∷ cs) =
    let rest = all_lines (if c == b'\n' then [] else line ++ c ∷ []) cs in
    if c == b'\n' then line ∷ rest else rest

unfoldable pub in_section : Config → Option ℕ → Access (List (Str × ℕ))
in_section c none = done c.sections
in_section c (some i) = do s ← section_at c i; done s.sections

unfoldable pub section_line : Reader → Str → Access Reader
unfolding opened in_section
section_line r line = do
  ss ← in_section r.config r.section
  opened r (get_section r.config ss (stringtok space line).0)

-- A round of the loop of Load.
unfoldable pub read_line : Reader → Str → Access Reader
unfolding item_line end_line section_line has_char
read_line r [] = done r
read_line r (c ∷ cs) =
    if c == b'#' || c == b'\r' || c == b'\n'
    then done r
    else if has_char b'=' (c ∷ cs)
    then item_line r r.section (c ∷ cs)
    else if c == b'}'
    then end_line r r.section
    else section_line r (c ∷ cs)

unfoldable pub read_lines : Reader → List Str → Access Reader
read_lines r [] = done r
read_lines r (l ∷ ls) = do
  r' ← read_line r (skip_delimiters (b' ' ∷ b'\t' ∷ []) (to_nul l))
  read_lines r' ls

-- The end of Load: an open section, or a section that the configuration lacks.
unfoldable pub is_open : Option ℕ → Bool
is_open none = false
is_open (some i) = true

unfoldable pub closed : Reader → Config × Bool
unfolding is_open
closed r =
    let error = r.error || is_open r.section || any_missing r.config r.config.sections in
    if error then (r.config, false) else (record (r.config) { loaded = true }, true)

unfoldable pub load_text : Config → Option Str → Access (Config × Bool)
unfolding closed
load_text c none = done (c, false)
load_text c (some text) = do
  r ← read_lines (record { config = c; section = none; error = false }) (all_lines [] text)
  done (closed r)
