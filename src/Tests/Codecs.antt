-- ===== src/Tests/Codecs.antt =====
-- Runs of lib/net/netutil.cpp and of the values of lib/dht.
use arbore_experiment.Base.{◌≡◌, refl, arith, [], ◌∷◌, ◌++◌, true, false}
use arbore_experiment.Key.{lt_down, lt}
use arbore_experiment.Key.Bytes.{dump_key, read_words, read_key}
use arbore_experiment.Netutil.{
  got, malformed, past_end, dump32, read32, dump64, read64, dump_str, str_size, copy, to_nul,
  read_str,
}
use arbore_experiment.Netutil.RoundTrip.{read64-dump64}
use arbore_experiment.Dht.{
  str_lt, insert, erase, Data, string_list, key_list, new_string, new_key, is_empty, get_size,
  get_data_type, is_old, dump_names, dump_keys, dump, read_names, read_keys, read_string_list,
  read_key_list, create_data,
}
use arbore_experiment.Dht.Codec.{at_time, create_data-dump}
use arbore_experiment.Tests.{key_at, key_at-IsKey}

program : Unit {0}
unfolding lt_down lt dump_key read_words read_key dump32 read32 dump64 read64 dump_str str_size copy
    to_nul read_str str_lt insert erase new_string new_key is_empty get_size get_data_type is_old
    dump_names dump_keys dump read_names read_keys read_string_list read_key_list create_data
    at_time
program = tt

abbrev names : Data
names = string_list ((b'a' ∷ b'b' ∷ []) ∷ (b'b' ∷ []) ∷ []) 5

numbers :
    (dump32 258 ≡ 0 ∷ 0 ∷ 1 ∷ 2 ∷ [])
    × (read32 (0 ∷ 0 ∷ 1 ∷ 2 ∷ 9 ∷ []) ≡ got 258)
    × (read32 (1 ∷ 2 ∷ []) ≡ past_end)
unfolding program
numbers = (refl, refl, refl)

-- What is behind a NUL in a string is lost.
cut : read_str (dump_str (b'a' ∷ 0 ∷ b'b' ∷ [])) ≡ got (b'a' ∷ [])
unfolding program
cut = refl

sets :
    (insert str_lt (b'a' ∷ []) ((b'a' ∷ b'b' ∷ []) ∷ []) ≡ (b'a' ∷ []) ∷ (b'a' ∷ b'b' ∷ []) ∷ [])
    × (erase lt (key_at 3) (key_at 3 ∷ key_at 5 ∷ []) ≡ key_at 5 ∷ [])
    × (is_empty (new_key 7 (key_at 3)) ≡ false)
    × (get_size names ≡ 2)
    × (is_old 3600000006 names ≡ true)
    × (is_old 3600000005 names ≡ false)
unfolding program
sets = (refl, refl, refl, refl, refl, refl)

bad_type : create_data 9 (dump32 3) ≡ malformed
unfolding program
bad_type = refl

back : create_data 9 (dump names) ≡ got (at_time 9 names)
unfolding program
back = refl

long_numbers : read64 (dump64 4294967298 ++ 7 ∷ []) ≡ got 4294967298
long_numbers = read64-dump64 4294967298 (7 ∷ []) (omega arith)

create_data-dump_example :
    create_data 9 (dump (key_list (key_at 3 ∷ key_at 5 ∷ []) 1) ++ 7 ∷ [])
    ≡ got (at_time 9 (key_list (key_at 3 ∷ key_at 5 ∷ []) 1))
unfolding lt lt_down
create_data-dump_example =
    create_data-dump 9 (key_list (key_at 3 ∷ key_at 5 ∷ []) 1) (7 ∷ [])
      (((refl, tt), (tt, tt)), omega arith, (key_at-IsKey 3, (key_at-IsKey 5, tt)))
