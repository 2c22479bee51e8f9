-- ===== src/Tests/Configs.antt =====
-- Runs of lib/util/pf_config.cpp.
use arbore_experiment.Base.{
  ◌≡◌, refl, Bool, true, false, Option, none, some, [], ◌∷◌, ◌==◌, if◌then◌else◌, arith, subst,
  Bool-cases, inl, inr,
}
use arbore_experiment.Netutil.{Str, to_nul}
use arbore_experiment.Dht.{str_lt}
use arbore_experiment.StrMap.{StrMap, str_eq, find, put}
use arbore_experiment.Session.{read_digits}
use arbore_experiment.Tools.{is_one_of, skip_delimiters, to_delimiter, stringtok}
use arbore_experiment.Tree.{Access, done, bad_pointer, unbounded, pointed}
use arbore_experiment.Config.{
  pos, int_item, unset, number, Item, Section, Config, clone, all_digits, to_int, at_least, at_most,
  int_value, bool_value, kind_value, set_value, set_found, insert_section, write, is_original,
  get_section, is_named, get_named, is_nothing, with_default, defaults, is_missing, any_missing,
}
use arbore_experiment.Config.Load.{
  section_at, clone_items, copied, copy_each, copy_section, enter, siblings, is_name_item, put_item,
  put_name, with_value, with_item, item_line, end_line, open_copy, enter_section, opened, all_lines,
  in_section, section_line, read_line, read_lines, closed, load_text, has_char, is_open,
}
use arbore_experiment.Config.Items.{AllFilled}
use arbore_experiment.Config.Sound.{load_text-Sound}
use arbore_experiment.Config.Writes.{Holds, Sound}

-- A multiple section m with an item y from 1 to 9 and a section s without items.
abbrev item_y : Item
item_y = record {
  label = b'y' ∷ [];
  kind = int_item (pos 1) (pos 9);
  value = unset;
  def_value = [];
  found = false;
}

abbrev section_m : Section
section_m = record {
  name = [];
  label = b'm' ∷ [];
  multiple = true;
  items = (b'y' ∷ [], item_y) ∷ [];
  sections = (b's' ∷ [], 1) ∷ [];
  parent = none;
  copy = false;
  name_item = none;
  found = false;
}

abbrev section_s : Section
section_s = record {
  name = [];
  label = b's' ∷ [];
  multiple = false;
  items = [];
  sections = [];
  parent = some 0;
  copy = false;
  name_item = none;
  found = false;
}

abbrev start : Config
start = record {
  cells = λ i. if i == 0 then some section_m else if i == 1 then some section_s else none;
  next = 2;
  sections = (b'm' ∷ [], 0) ∷ [];
  loaded = false;
}

-- m / s / } / y =2 / }
abbrev lines : Str
lines =
    b'm' ∷ b'\n' ∷ b's' ∷ b'\n' ∷ b'}' ∷ b'\n' ∷ b'y' ∷ b' ' ∷ b'=' ∷ b'2' ∷ b'\n' ∷ b'}' ∷ b'\n'
    ∷ []

same_some {ℓ} : {A : Type ℓ} (a b : A) → some a ≡ some b → a ≡ b
same_some a b h = cc

items_at : Option Section → StrMap Item
items_at none = []
items_at (some s) = s.items

report : Access (Config × Bool) → Bool × StrMap Item × StrMap Item
unfolding items_at
report (done (c, ok)) = (ok, items_at (c.cells 0), items_at (c.cells 3))
report bad_pointer = (false, [], [])
report unbounded = (false, [], [])

program : Unit {0}
unfolding report items_at to_nul str_lt str_eq find put read_digits is_one_of skip_delimiters
    to_delimiter stringtok pointed clone all_digits to_int at_least at_most int_value bool_value
    kind_value set_value set_found insert_section write is_original get_section is_named get_named
    is_nothing with_default defaults is_missing any_missing section_at clone_items copied copy_each
    copy_section enter siblings is_name_item put_item put_name with_value with_item item_line
    end_line open_copy enter_section opened all_lines in_section section_line read_line read_lines
    closed load_text has_char is_open
program = tt

-- The copy of s has the section as its parent that was copied, and not the copy of m. So y is set
-- in the former, and its end is an error: it lacks s, which was read in the copy.
parent_of_copy : report (load_text start (some lines)) ≡ (
  false,
  (b'y' ∷ [], record item_y { value = number 2; found = true }) ∷ [],
  (b'y' ∷ [], item_y) ∷ [],
)
unfolding program
parent_of_copy = refl

-- A section without another one in it, and a text with it: m / y =2 / }
abbrev single : Config
single = record {
  cells = λ i. if i == 0 then some (record section_m { multiple = false; sections = [] }) else none;
  next = 1;
  sections = (b'm' ∷ [], 0) ∷ [];
  loaded = false;
}

abbrev good_lines : Str
good_lines = b'm' ∷ b'\n' ∷ b'y' ∷ b' ' ∷ b'=' ∷ b'2' ∷ b'\n' ∷ b'}' ∷ b'\n' ∷ []

single-Sound : Sound single
unfolding Sound
single-Sound i s at = elim (Bool-cases (i == 0)) [
  | inl first ↦
      subst (λ (t : Section). AllFilled t.items)
        (same_some (record section_m { multiple = false; sections = [] }) s
          (ground (arith, at, first)))
        (λ found. absurd cc, tt)
  | inr other ↦ absurd (ground (arith, at, other))
]

-- Its load returns true, and y has its value.
loads :
    report (load_text single (some good_lines))
    ≡ (true, (b'y' ∷ [], record item_y { value = number 2; found = true }) ∷ [], [])
unfolding program
loads = refl

load_text-Sound_example :
    Holds (λ (c', ok). ok ≡ true → Sound c') (load_text single (some good_lines))
load_text-Sound_example = load_text-Sound single good_lines single-Sound
