-- ===== src/Tests/Storages.antt =====
-- Runs of lib/dht/storage.cpp.
use arbore_experiment.Base.{◌≡◌, refl, [], ◌∷◌, if◌then◌else◌}
use arbore_experiment.Key.{eq, lt_down, lt}
use arbore_experiment.Dht.{
  string_list, key_list, str_lt, insert, erase, new_string, new_key, is_empty,
}
use arbore_experiment.Dht.Storage.{
  Storage, done, wrong_data_type, unknown_key, find, put, erase_entry, is_found, is_keys,
  is_strings, has_key, is_key_list, is_string_list, with_key, with_string, add_key, add_string,
  remove_key, without_key, without_string, settle, remove_found_key, remove_found_string,
  remove_info_key, remove_info_string, add_keys, add_strings, add_info, remove_keys, remove_strings,
  remove_info,
}
use arbore_experiment.Dht.Storage.Contents.{keys_at, add_key-keys_at, remove_info_key-keys_at}
use arbore_experiment.Tests.{key_at}

program : Unit {0}
unfolding eq lt_down lt str_lt insert erase new_string new_key is_empty find put erase_entry
    is_found is_keys is_strings has_key is_key_list is_string_list with_key with_string add_key
    add_string remove_key without_key without_string settle remove_found_key remove_found_string
    remove_info_key remove_info_string add_keys add_strings add_info remove_keys remove_strings
    remove_info
program = tt

abbrev stored : Storage
stored = (key_at 1, key_list (key_at 5 ∷ []) 2) ∷ (key_at 2, string_list ((b'a' ∷ []) ∷ []) 2) ∷ []

runs :
    (add_info 9 [] (key_at 1) (key_list (key_at 5 ∷ key_at 3 ∷ []) 1)
      ≡ done ((key_at 1, key_list (key_at 3 ∷ key_at 5 ∷ []) 9) ∷ []))
    × (add_key 9 stored (key_at 2) (key_at 3) ≡ wrong_data_type stored)
    × (remove_info stored (key_at 2) (string_list ((b'a' ∷ []) ∷ []) 1)
        ≡ done ((key_at 1, key_list (key_at 5 ∷ []) 2) ∷ []))
    × (remove_info_key stored (key_at 3) (key_at 3) ≡ done stored)
    × (remove_key stored (key_at 3) ≡ unknown_key stored)
    × (add_string 9 stored (key_at 1) (b'a' ∷ []) ≡ wrong_data_type stored)
unfolding program
runs = (refl, refl, refl, refl, refl, refl)

remove_info_key-keys_at_example :
    (s' : Storage) × (remove_info_key stored (key_at 1) (key_at 5) ≡ done s')
    × (keys_at s' (key_at 1) ≡ (
        if eq (key_at 1) (key_at 1)
        then erase lt (key_at 5) (keys_at stored (key_at 1))
        else keys_at stored (key_at 1)))
unfolding program
remove_info_key-keys_at_example =
    remove_info_key-keys_at stored (key_at 1) (key_at 5) (key_at 1) refl

add_key-keys_at_example :
    (s' : Storage) × (add_key 9 stored (key_at 1) (key_at 3) ≡ done s')
    × (keys_at s' (key_at 1) ≡ (
        if eq (key_at 1) (key_at 1)
        then insert lt (key_at 3) (keys_at stored (key_at 1))
        else keys_at stored (key_at 1)))
unfolding program
add_key-keys_at_example = add_key-keys_at 9 stored (key_at 1) (key_at 3) (key_at 1) refl
