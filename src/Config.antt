-- ===== src/Config.antt =====
-- lib/util/pf_config.cpp and pf_config.h: a configuration file of sections and items. Sections are
-- objects in memory that point to their parents. The callbacks of items and sections, which the
-- caller gives, are left out.
pub mod Load
pub mod Items
pub mod Writes
pub mod Sound
use arbore_experiment.Base.{
  ℕ, zero, suc, ◌+◌, ◌-◌, ◌*◌, Bool, true, false, ◌&&◌, ◌||◌, not, Option, none, some, List, [],
  ◌∷◌, ◌++◌, ltb, leb, ◌==◌, if◌then◌else◌,
}
use arbore_experiment.Netutil.{Str}
use arbore_experiment.Dht.{str_lt}
use arbore_experiment.StrMap.{str_eq, StrMap, find, put}
use arbore_experiment.Session.{read_digits}

-- An int, as a bound of an item.
pub data ℤ : Type 0 where
  pos : ℕ → ℤ
  negsuc : ℕ → ℤ

-- The derived classes of ConfigItem, and the value of an item, which a new item lacks.
pub data Kind : Type 0 where
  string_item : Kind
  int_item : ℤ → ℤ → Kind
  bool_item : Kind

pub data Value : Type 0 where
  unset : Value
  text : Str → Value
  number : ℕ → Value
  flag : Bool → Value

pub record Item : Type 0 where
  pub label : Str
  pub kind : Kind
  pub value : Value
  pub def_value : Str
  pub found : Bool

pub record Section : Type 0 where
  pub name : Str
  pub label : Str
  pub multiple : Bool
  pub items : StrMap Item
  pub sections : List (Str × ℕ)
  pub parent : Option ℕ
  pub copy : Bool
  pub name_item : Option Str
  pub found : Bool

-- A MyConfig with the sections by their addresses.
pub record Config : Type 0 where
  pub cells : ℕ → Option Section
  pub next : ℕ
  pub sections : List (Str × ℕ)
  pub loaded : Bool

-- Clone of an item: without its value, and not found.
unfoldable pub clone : Item → Item
clone i = record i { value = unset; found = false }

unfoldable pub all_digits : Str → Bool
all_digits [] = true
all_digits (c ∷ cs) = let rest = all_digits cs in leb b'0' c && leb c b'9' && rest

-- operator>> of a stream for an int: too large a number becomes INT_MAX, no digits give 0.
unfoldable pub to_int : Str → ℕ
to_int s = let n = read_digits 0 s in if leb 2147483648 n then 2147483647 else n

unfoldable pub at_least : ℕ → ℤ → Bool
at_least n (pos m) = leb m n
at_least n (negsuc m) = true

unfoldable pub at_most : ℕ → ℤ → Bool
at_most n (pos m) = leb n m
at_most n (negsuc m) = false

abbrev pub word_true : Str
word_true = b't' ∷ b'r' ∷ b'u' ∷ b'e' ∷ []

abbrev pub word_on : Str
word_on = b'o' ∷ b'n' ∷ []

abbrev pub word_yes : Str
word_yes = b'y' ∷ b'e' ∷ b's' ∷ []

abbrev pub word_false : Str
word_false = b'f' ∷ b'a' ∷ b'l' ∷ b's' ∷ b'e' ∷ []

abbrev pub word_off : Str
word_off = b'o' ∷ b'f' ∷ b'f' ∷ []

abbrev pub word_no : Str
word_no = b'n' ∷ b'o' ∷ []

-- SetValue: the value that it leaves, and whether it is accepted.
unfoldable pub int_value : ℤ → ℤ → Value → Str → Value × Bool
unfolding all_digits to_int at_least at_most
int_value min max old s =
    if all_digits s
    then (number (to_int s), at_least (to_int s) min && at_most (to_int s) max)
    else (old, false)

unfoldable pub bool_value : Value → Str → Value × Bool
bool_value old s =
    if str_eq s word_true || str_eq s word_on || str_eq s word_yes
    then (flag true, true)
    else if str_eq s word_false || str_eq s word_off || str_eq s word_no
    then (flag false, true)
    else (old, false)

unfoldable pub kind_value : Kind → Value → Str → Value × Bool
unfolding int_value bool_value
kind_value string_item old s = (text s, true)
kind_value (int_item min max) old s = int_value min max old s
kind_value bool_item old s = bool_value old s

unfoldable pub set_value : Item → Str → Item × Bool
set_value i s =
    let (v, accepted) = kind_value i.kind i.value s in (record i { value = v }, accepted)

unfoldable pub set_found : Item → Item
set_found i = record i { found = true }

-- insert of a std::multimap: behind the entries of the same label.
unfoldable pub insert_section : Str → ℕ → List (Str × ℕ) → List (Str × ℕ)
insert_section label i [] = (label, i) ∷ []
insert_section label i ((l, j) ∷ ss) =
    let rest = insert_section label i ss in
    if str_lt label l then (label, i) ∷ (l, j) ∷ ss else (l, j) ∷ rest

unfoldable pub write : Config → ℕ → Section → Config
write c i s = record c { cells = λ j. if j == i then some s else c.cells j }

unfoldable pub is_original : Option Section → Bool
is_original none = false
is_original (some s) = not s.copy

-- GetSection of a label: the first one that is no copy.
unfoldable pub get_section : Config → List (Str × ℕ) → Str → Option ℕ
unfolding is_original
get_section c [] label = none
get_section c ((l, i) ∷ ss) label =
    let rest = get_section c ss label in
    if str_eq l label && is_original (c.cells i) then some i else rest

-- GetSection of a label and a name.
unfoldable pub is_named : Str → Option Section → Bool
is_named name none = false
is_named name (some s) = s.multiple && str_eq s.name name

unfoldable pub get_named : Config → List (Str × ℕ) → Str → Str → Option ℕ
unfolding is_named
get_named c [] label name = none
get_named c ((l, i) ∷ ss) label name =
    let rest = get_named c ss label name in
    if str_eq l label && is_named name (c.cells i) then some i else rest

-- GetSectionClones.
unfoldable pub is_clone : Option Section → Bool
is_clone none = false
is_clone (some s) = s.multiple && s.copy

unfoldable pub get_section_clones : Config → List (Str × ℕ) → Str → List ℕ
unfolding is_clone
get_section_clones c [] label = []
get_section_clones c ((l, i) ∷ ss) label =
    let rest = get_section_clones c ss label in
    if str_eq l label && is_clone (c.cells i) then i ∷ rest else rest

-- FindEmpty of a section: an item that was not found gets its default value.
unfoldable pub is_nothing : Str → Bool
is_nothing [] = true
is_nothing (x ∷ xs) = false

unfoldable pub with_default : Item → Item × Bool
unfolding is_nothing
with_default i =
    if i.found
    then (i, false)
    else if is_nothing i.def_value
    then (i, true)
    else (let (i', accepted) = set_value i i.def_value in (i', not accepted))

unfoldable pub defaults : StrMap Item → StrMap Item × Bool
unfolding with_default
defaults [] = ([], false)
defaults ((l, i) ∷ is) =
    let (i', missing) = with_default i in
    let (is', error) = defaults is in ((l, i') ∷ is', missing || error)

unfoldable pub is_missing : Option Section → Bool
is_missing none = false
is_missing (some s) = not s.found && not s.multiple

unfoldable pub any_missing : Config → List (Str × ℕ) → Bool
unfolding is_missing
any_missing c [] = false
any_missing c ((l, i) ∷ ss) = is_missing (c.cells i) || any_missing c ss
