-- ===== src/Session.antt =====
-- lib/util/session_config.cpp and session_config.h: the map of options and the file that keeps it.
-- What the file system answers are parameters: whether a file opens for writing, and the text of
-- the file that is read.
pub mod Numbers
pub mod File
use arbore_experiment.Base.{
  ℕ, zero, suc, ◌+◌, ◌-◌, ◌*◌, ◌/◌, ◌%◌, Bool, true, false, ◌&&◌, ◌||◌, Option, none, some, List,
  [], ◌∷◌, ◌++◌, ltb, leb, ◌==◌, if◌then◌else◌,
}
use arbore_experiment.Netutil.{Str}
use arbore_experiment.StrMap.{StrMap, find, put}

-- TypToStr of a uint32_t: ten digits are enough.
unfoldable pub digits_of : ℕ → ℕ → Str
digits_of zero n = []
digits_of (suc f) n =
    let high = digits_of f (n / 10) in
    if ltb n 10 then (b'0' + n) ∷ [] else high ++ (b'0' + n % 10) ∷ []

unfoldable pub to_decimal : ℕ → Str
to_decimal n = digits_of 10 n

-- StrToTyp, that is operator>> of a stream: it skips white space.
unfoldable pub is_space : ℕ → Bool
is_space c = c == b' ' || (leb 9 c && leb c 13)

unfoldable pub skip_space : Str → Str
unfolding is_space
skip_space [] = []
skip_space (c ∷ cs) = let rest = skip_space cs in if is_space c then rest else c ∷ cs

unfoldable pub read_digits : ℕ → Str → ℕ
read_digits n [] = n
read_digits n (c ∷ cs) =
    let rest = read_digits (n * 10 + (c - b'0')) cs in if leb b'0' c && leb c b'9' then rest else n

-- A number that is too large becomes the largest, and a negative one wraps around.
unfoldable pub limited : Bool → ℕ → ℕ
limited negative n =
    if leb 4294967296 n then 4294967295 else if negative then (4294967296 - n) % 4294967296 else n

unfoldable pub read_signed : Str → ℕ
unfolding limited
read_signed [] = 0
read_signed (c ∷ cs) =
    if c == b'-'
    then limited true (read_digits 0 cs)
    else if c == b'+'
    then limited false (read_digits 0 cs)
    else limited false (read_digits 0 (c ∷ cs))

-- StrToTyp of a uint32_t.
unfoldable pub to_uint32 : Str → ℕ
to_uint32 s = read_signed (skip_space s)

-- StrToTyp of a string: the first word.
unfoldable pub until_space : Str → Str
unfolding is_space
until_space [] = []
until_space (c ∷ cs) = let rest = until_space cs in if is_space c then [] else c ∷ rest

unfoldable pub first_word : Str → Str
first_word s = until_space (skip_space s)

pub record SessionConfig : Type 0 where
  pub filename : Str
  pub list : StrMap Str

abbrev pub new_config : SessionConfig
new_config = record { filename = []; list = [] }

-- Set and Get, for the types that the code uses them with.
unfoldable pub set_text : Str → Str → SessionConfig → SessionConfig
set_text opt val c = record c { list = put opt val c.list }

unfoldable pub set_uint32 : Str → ℕ → SessionConfig → SessionConfig
set_uint32 opt val c = record c { list = put opt (to_decimal val) c.list }

unfoldable pub read_as {ℓ} : {A : Type ℓ} → (Str → A) → Option Str → Option A
read_as f none = none
read_as f (some s) = some (f s)

unfoldable pub get_text : SessionConfig → Str → Option Str
get_text c opt = read_as first_word (find c.list opt)

unfoldable pub get_uint32 : SessionConfig → Str → Option ℕ
get_uint32 c opt = read_as to_uint32 (find c.list opt)

-- The name and the value around the first `=`.
unfoldable pub before_equal : ℕ → Option (Str × Str) → Option (Str × Str)
before_equal c none = none
before_equal c (some (opt, val)) = some (c ∷ opt, val)

unfoldable pub split_equal : Str → Option (Str × Str)
unfolding before_equal
split_equal [] = none
split_equal (c ∷ cs) =
    let rest = split_equal cs in if c == b'=' then some ([], cs) else before_equal c rest

unfoldable pub set_split : Option (Str × Str) → SessionConfig → SessionConfig
set_split none c = c
set_split (some (opt, val)) c = set_text opt val c

-- Parse.
unfoldable pub parse : Str → SessionConfig → SessionConfig
parse line c = set_split (split_equal line) c

-- The lines that getline gives before the end of the file; characters behind the last newline are
-- none of them.
unfoldable pub lines_of : Str → Str → List Str
lines_of line [] = []
lines_of line (c ∷ cs) =
    let rest = lines_of (if c == b'\n' then [] else line ++ c ∷ []) cs in
    if c == b'\n' then line ∷ rest else rest

-- A round of the loop of Load.
unfoldable pub load_line : Str → SessionConfig → SessionConfig
load_line [] c = c
load_line (x ∷ xs) c = if x == b'#' then c else parse (x ∷ xs) c

unfoldable pub load_lines : List Str → SessionConfig → SessionConfig
load_lines [] c = c
load_lines (line ∷ lines) c = load_lines lines (load_line line c)

unfoldable pub save_text : StrMap Str → Str
save_text [] = []
save_text ((k, v) ∷ m) = k ++ b'=' ∷ (v ++ b'\n' ∷ save_text m)

-- Save: what it answers, and the text that it writes.
unfoldable pub save_named : Bool → Str → StrMap Str → Bool × Option Str
save_named opens [] list = (false, none)
save_named false (x ∷ xs) list = (false, none)
save_named true (x ∷ xs) list = (true, some (save_text list))

unfoldable pub save : Bool → SessionConfig → Bool × Option Str
save opens c = save_named opens c.filename c.list

-- Load, with what it saves of the file that was loaded before.
unfoldable pub load_text : Option Str → SessionConfig → SessionConfig
load_text none c = c
load_text (some text) c = load_lines (lines_of [] text) c

unfoldable pub load : Bool → Option Str → Str → SessionConfig → SessionConfig × Option Str
load opens text name c = (load_text text (record c { filename = name }), (save opens c).1)
