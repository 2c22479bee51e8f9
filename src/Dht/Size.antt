-- ===== src/Dht/Size.antt =====
-- The size of the bytes that `dump` of lib/dht/datakey.cpp and datastring.cpp writes.
use arbore_experiment.Base.{◌*◌, ◌≡◌, List, [], ◌∷◌, length, length-append, All, arith}
use arbore_experiment.Key.{Key, IsKey}
use arbore_experiment.Key.Bytes.{dump_key, length-dump_key}
use arbore_experiment.Netutil.{Str, dump32, dump_str, str_size}
use arbore_experiment.Dht.{
  Data, string_list, key_list, dump_names, dump_keys, dump, names_size, serialised_size,
}

length-dump_names : (names : List Str) → length (dump_names names) ≡ names_size names
unfolding dump_names names_size dump_str dump32 str_size
length-dump_names [] = omega arith
length-dump_names (s ∷ names) = omega (
  arith,
  length-append s (dump_names names),
  length-append (dump_str s) (dump_names names),
  length-dump_names names,
)

length-dump_keys : (keys : List Key) → All IsKey keys → length (dump_keys keys) ≡ length keys * 20
unfolding dump_keys
length-dump_keys [] h = omega arith
length-dump_keys (k ∷ keys) h = omega (
  arith,
  length-append (dump_key k) (dump_keys keys),
  length-dump_key k,
  h.0.sized,
  length-dump_keys keys h.1,
)

-- All keys of the value have five words.
abbrev pub HasKeys : Data → Type 0
HasKeys (string_list names t) = Unit {0}
HasKeys (key_list keys t) = All IsKey keys

-- If the keys of a value have five words, `dump` writes exactly as many bytes as getSerialisedSize
-- says.
pub length-dump : (d : Data) → HasKeys d → length (dump d) ≡ serialised_size d
unfolding dump serialised_size dump32
length-dump (string_list names t) h = omega (arith, length-dump_names names)
length-dump (key_list keys t) h = omega (arith, length-dump_keys keys h)
