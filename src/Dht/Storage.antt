-- ===== src/Dht/Storage.antt =====
-- lib/dht/storage.cpp: the values that a host keeps for others. A std::map is the list of its
-- entries; their order, which only GetStr and clean see, is left out.
pub mod Contents
pub mod Lists
use arbore_experiment.Base.{
  ℕ, Bool, true, false, ◌&&◌, not, Option, none, some, List, [], ◌∷◌, if◌then◌else◌,
}
use arbore_experiment.Key.{Key, eq, lt}
use arbore_experiment.Netutil.{Str}
use arbore_experiment.Dht.{
  Data, string_list, key_list, str_lt, insert, erase, new_string, new_key, is_empty,
}

abbrev pub Storage : Type 0
Storage = List (Key × Data)

-- How an operation ends: it returns, or throws WrongDataType or UnknowKey, with the storage that
-- it leaves.
pub data Outcome : Type 0 where
  done : Storage → Outcome
  wrong_data_type : Storage → Outcome
  unknown_key : Storage → Outcome

-- map::find, map::operator[] with an assignment, and map::erase.
unfoldable pub find : Storage → Key → Option Data
find [] k = none
find ((k', d) ∷ s) k = let rest = find s k in if eq k k' then some d else rest

unfoldable pub put : Key → Data → Storage → Storage
put k d [] = (k, d) ∷ []
put k d ((k', d') ∷ s) = let rest = put k d s in if eq k k' then (k, d) ∷ s else (k', d') ∷ rest

unfoldable pub erase_entry : Key → Storage → Storage
erase_entry k [] = []
erase_entry k ((k', d) ∷ s) = let rest = erase_entry k s in if eq k k' then rest else (k', d) ∷ rest

unfoldable pub is_found : Option Data → Bool
is_found none = false
is_found (some d) = true

unfoldable pub is_keys : Option Data → Bool
is_keys (some (key_list keys t)) = true
is_keys _ = false

unfoldable pub is_strings : Option Data → Bool
is_strings (some (string_list names t)) = true
is_strings _ = false

-- hasKey, isKeyList and isStringList.
unfoldable pub has_key : Storage → Key → Bool
unfolding is_found
has_key s k = is_found (find s k)

unfoldable pub is_key_list : Storage → Key → Bool
unfolding is_keys
is_key_list s k = is_keys (find s k)

unfoldable pub is_string_list : Storage → Key → Bool
unfolding is_strings
is_string_list s k = is_strings (find s k)

-- The value behind addInfo: `add` of the one that is there, or a new one. The guard before has
-- refused the value of the other type.
unfoldable pub with_key : ℕ → Key → Option Data → Data
with_key now info (some (key_list keys t)) = key_list (insert lt info keys) now
with_key now info (some (string_list names t)) = string_list names t
with_key now info none = new_key now info

unfoldable pub with_string : ℕ → Str → Option Data → Data
with_string now info (some (string_list names t)) = string_list (insert str_lt info names) now
with_string now info (some (key_list keys t)) = key_list keys t
with_string now info none = new_string now info

-- addInfo(k, Key) and addInfo(k, string).
unfoldable pub add_key : ℕ → Storage → Key → Key → Outcome
add_key now s k info =
    if has_key s k && not (is_key_list s k)
    then wrong_data_type s
    else done (put k (with_key now info (find s k)) s)

unfoldable pub add_string : ℕ → Storage → Key → Str → Outcome
add_string now s k info =
    if has_key s k && not (is_string_list s k)
    then wrong_data_type s
    else done (put k (with_string now info (find s k)) s)

-- removeKey.
unfoldable pub remove_key : Storage → Key → Outcome
remove_key s k = if not (has_key s k) then unknown_key s else done (erase_entry k s)

-- DataKey::remove and DataString::remove, which leave the time.
unfoldable pub without_key : Key → Data → Data
without_key info (key_list keys t) = key_list (erase lt info keys) t
without_key info (string_list names t) = string_list names t

unfoldable pub without_string : Str → Data → Data
without_string info (string_list names t) = string_list (erase str_lt info names) t
without_string info (key_list keys t) = key_list keys t

-- What removeInfo does with the value after the removal.
unfoldable pub settle : Storage → Key → Data → Outcome
settle s k d = if is_empty d then remove_key (put k d s) k else done (put k d s)

unfoldable pub remove_found_key : Storage → Key → Key → Option Data → Outcome
remove_found_key s k info none = done s
remove_found_key s k info (some d) = settle s k (without_key info d)

unfoldable pub remove_found_string : Storage → Key → Str → Option Data → Outcome
remove_found_string s k info none = done s
remove_found_string s k info (some d) = settle s k (without_string info d)

-- removeInfo(k, Key) and removeInfo(k, string).
unfoldable pub remove_info_key : Storage → Key → Key → Outcome
remove_info_key s k info =
    if has_key s k && not (is_key_list s k)
    then wrong_data_type s
    else remove_found_key s k info (find s k)

unfoldable pub remove_info_string : Storage → Key → Str → Outcome
remove_info_string s k info =
    if has_key s k && not (is_string_list s k)
    then wrong_data_type s
    else remove_found_string s k info (find s k)

-- An exception ends the loops over a Data.
abbrev pub and_then : Outcome → (Storage → Outcome) → Outcome
and_then (done s) f = f s
and_then (wrong_data_type s) f = wrong_data_type s
and_then (unknown_key s) f = unknown_key s

unfoldable pub add_keys : ℕ → Storage → Key → List Key → Outcome
add_keys now s k [] = done s
add_keys now s k (x ∷ xs) = and_then (add_key now s k x) (λ s'. add_keys now s' k xs)

unfoldable pub add_strings : ℕ → Storage → Key → List Str → Outcome
add_strings now s k [] = done s
add_strings now s k (x ∷ xs) = and_then (add_string now s k x) (λ s'. add_strings now s' k xs)

-- addInfo(k, const Data*).
unfoldable pub add_info : ℕ → Storage → Key → Data → Outcome
add_info now s k (string_list names t) = add_strings now s k names
add_info now s k (key_list keys t) = add_keys now s k keys

unfoldable pub remove_keys : Storage → Key → List Key → Outcome
remove_keys s k [] = done s
remove_keys s k (x ∷ xs) = and_then (remove_info_key s k x) (λ s'. remove_keys s' k xs)

unfoldable pub remove_strings : Storage → Key → List Str → Outcome
remove_strings s k [] = done s
remove_strings s k (x ∷ xs) = and_then (remove_info_string s k x) (λ s'. remove_strings s' k xs)

-- removeInfo(k, const Data*).
unfoldable pub remove_info : Storage → Key → Data → Outcome
remove_info s k (string_list names t) = remove_strings s k names
remove_info s k (key_list keys t) = remove_keys s k keys

-- getInfo: the value, or UnknowKey. A value of either type is returned as it is.
unfoldable pub get_info : Storage → Key → Option Data
get_info s k = if not (has_key s k) then none else find s k

-- clear.
unfoldable pub clear : Storage → Storage
clear s = []
