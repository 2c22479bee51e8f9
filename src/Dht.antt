-- ===== src/Dht.antt =====
-- lib/dht/data.cpp, datakey.cpp and datastring.cpp: the values of the distributed storage, and their
-- byte form. A std::set is the list of its elements in their order, without repetition.
pub mod Sets
pub mod Codec
pub mod Storage
pub mod Size
use arbore_experiment.Base.{
  ℕ, ◌+◌, ◌*◌, zero, suc, ◌%◌, Bool, true, false, List, [], ◌∷◌, ◌++◌, ltb, ◌==◌, ◌-◌,
  if◌then◌else◌, length, drop,
}
use arbore_experiment.Key.{Key, lt}
use arbore_experiment.Key.Bytes.{dump_key, read_key}
use arbore_experiment.Netutil.{
  Read, got, malformed, past_end, ◌>>=◌, Str, dump32, read32, dump_str, read_str, str_size,
}

-- operator< of std::string: the characters as unsigned bytes, a prefix first.
unfoldable pub str_lt : Str → Str → Bool
str_lt [] [] = false
str_lt [] (y ∷ ys) = true
str_lt (x ∷ xs) [] = false
str_lt (x ∷ xs) (y ∷ ys) =
    let rest = str_lt xs ys in if ltb x y then true else if ltb y x then false else rest

-- std::set by a test for the order: insert and erase.
module _ {ℓ} {A : Type ℓ} (before : A → A → Bool) where
  unfoldable pub insert : A → List A → List A
  insert x [] = x ∷ []
  insert x (y ∷ ys) =
      let rest = insert x ys in
      if before x y then x ∷ y ∷ ys else if before y x then y ∷ rest else y ∷ ys

  unfoldable pub erase : A → List A → List A
  erase x [] = []
  erase x (y ∷ ys) =
      let rest = erase x ys in if before x y then y ∷ ys else if before y x then y ∷ rest else ys

-- A Data: a DataString or a DataKey, with updateTime_ in microseconds.
pub data Data : Type 0 where
  string_list : List Str → ℕ → Data
  key_list : List Key → ℕ → Data

-- The constructors for one element, and add: the set and the time at which it changed.
unfoldable pub new_string : ℕ → Str → Data
new_string now name = string_list (name ∷ []) now

unfoldable pub new_key : ℕ → Key → Data
new_key now k = key_list (k ∷ []) now

unfoldable pub is_empty : Data → Bool
is_empty (string_list [] t) = true
is_empty (key_list [] t) = true
is_empty _ = false

unfoldable pub get_size : Data → ℕ
get_size (string_list names t) = length names
get_size (key_list keys t) = length keys

-- DataType.
unfoldable pub get_data_type : Data → ℕ
get_data_type (string_list names t) = 1
get_data_type (key_list keys t) = 2

-- isOld: DATA_TTL is 3600 seconds.
unfoldable pub is_old : ℕ → Data → Bool
is_old now (string_list names t) = ltb 3600000000 (now - t)
is_old now (key_list keys t) = ltb 3600000000 (now - t)

-- The loops of dump over the elements.
unfoldable pub dump_names : List Str → List ℕ
dump_names [] = []
dump_names (s ∷ names) = dump_str s ++ dump_names names

unfoldable pub dump_keys : List Key → List ℕ
dump_keys [] = []
dump_keys (k ∷ keys) = dump_key k ++ dump_keys keys

-- DataString::dump and DataKey::dump.
unfoldable pub dump : Data → List ℕ
dump (string_list names t) = dump32 1 ++ (dump32 (length names % 4294967296) ++ dump_names names)
dump (key_list keys t) = dump32 2 ++ (dump32 (length keys % 4294967296) ++ dump_keys keys)

-- The loops of DataString(char*) and DataKey(char*), which insert what they read.
unfoldable pub read_names : ℕ → List ℕ → List Str → Read (List Str)
read_names zero buff names = got names
read_names (suc n) buff names = do
  s ← read_str buff
  read_names n (drop (str_size s) buff) (insert str_lt s names)

unfoldable pub read_keys : ℕ → List ℕ → List Key → Read (List Key)
read_keys zero buff keys = got keys
read_keys (suc n) buff keys = do k ← read_key buff; read_keys n (drop 20 buff) (insert lt k keys)

unfoldable pub read_string_list : ℕ → List ℕ → Read Data
read_string_list now buff = do
  s ← read32 buff
  names ← read_names s (drop 4 buff) []
  got (string_list names now)

unfoldable pub read_key_list : ℕ → List ℕ → Read Data
read_key_list now buff = do
  s ← read32 buff
  keys ← read_keys s (drop 4 buff) []
  got (key_list keys now)

-- createData, at a time.
unfoldable pub create_data : ℕ → List ℕ → Read Data
create_data now buff = do
  type ← read32 buff
  let strings = read_string_list now (drop 4 buff)
  let keys = read_key_list now (drop 4 buff)
  if type == 1 then strings else if type == 2 then keys else malformed

-- The loop of DataString::getSerialisedSize.
unfoldable pub names_size : List Str → ℕ
names_size [] = 0
names_size (s ∷ names) = str_size s + names_size names

-- getSerialisedSize: the type and the number of elements, and the elements, of Key::size each for
-- keys.
unfoldable pub serialised_size : Data → ℕ
serialised_size (string_list names t) = 4 + 4 + names_size names
serialised_size (key_list keys t) = 4 + 4 + length keys * 20
