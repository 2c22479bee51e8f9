-- ===== src/Dht/Codec.antt =====
-- What `dump` of lib/dht/datakey.cpp and datastring.cpp writes, createData of data.cpp reads again.
use mathlib.Core.List.{append_assoc, append-nil}
use arbore_experiment.Base.{
  ℕ, ◌%◌, ◌<◌, ◌≡◌, refl, sym, subst, ◌∙◌, ap, true, false, List, [], ◌∷◌, ◌++◌, length, All, arith,
}
use arbore_experiment.Key.{Key, IsKey, lt}
use arbore_experiment.Key.Order.{lt_asymm}
use arbore_experiment.Key.Bytes.{dump_key, read_key-dump_key, drop-dump_key}
use arbore_experiment.Netutil.{got, Str, dump32, dump_str}
use arbore_experiment.Netutil.RoundTrip.{
  read32-dump32, drop-dump32, IsText, read_str-dump_str, drop-dump_str,
}
use arbore_experiment.Dht.{
  str_lt, Data, string_list, key_list, dump_names, dump_keys, dump, read_names, read_keys,
  read_string_list, read_key_list, create_data,
}
use arbore_experiment.Dht.Sets.{IsOrdered, insert_next}

-- The sets that a Data of the program holds: in order, with a size that 32 bits hold, of keys of
-- five words and of strings without NUL that are not too long.
abbrev pub IsData : Data → Type 0
IsData (string_list names t) =
    IsOrdered str_lt names
    × (length names < 4294967296)
    × All (λ s. IsText s × (length s < 4294967296)) names
IsData (key_list keys t) = IsOrdered lt keys × (length keys < 4294967296) × All IsKey keys

-- The value as it is at another time.
unfoldable pub at_time : ℕ → Data → Data
at_time now (string_list names t) = string_list names now
at_time now (key_list keys t) = key_list keys now

str_lt-asym : (a b : Str) → str_lt a b ≡ true → str_lt b a ≡ false
unfolding str_lt
str_lt-asym [] [] h = refl
str_lt-asym [] (y ∷ ys) h = refl
str_lt-asym (x ∷ xs) [] h = absurd (ground arith)
str_lt-asym (x ∷ xs) (y ∷ ys) h = ground (arith, str_lt-asym xs ys)

read_names-dump_names :
    (xs names : List Str) (rest : List ℕ)
    → IsOrdered str_lt (xs ++ names)
    → All (λ s. IsText s × (length s < 4294967296)) names
    → read_names (length names) (dump_names names ++ rest) xs ≡ got (xs ++ names)
unfolding read_names dump_names
read_names-dump_names xs [] rest o h = ap got (sym (append-nil xs))
read_names-dump_names xs (s ∷ names) rest o h =
    let e : (xs ++ s ∷ []) ++ names ≡ xs ++ s ∷ names = append_assoc xs (s ∷ []) names in
    let o' : IsOrdered str_lt ((xs ++ s ∷ []) ++ names) = subst (IsOrdered str_lt) (sym e) o in
    rw
      (
        append_assoc (dump_str s) (dump_names names) rest,
        read_str-dump_str s (dump_names names ++ rest) h.0.0 h.0.1,
        drop-dump_str s (dump_names names ++ rest),
        insert_next str_lt xs s names (λ y. str_lt-asym y s) o,
      )
      (read_names-dump_names (xs ++ s ∷ []) names rest o' h.1 ∙ ap got e)

read_keys-dump_keys :
    (xs keys : List Key) (rest : List ℕ)
    → IsOrdered lt (xs ++ keys)
    → All IsKey keys
    → read_keys (length keys) (dump_keys keys ++ rest) xs ≡ got (xs ++ keys)
unfolding read_keys dump_keys
read_keys-dump_keys xs [] rest o h = ap got (sym (append-nil xs))
read_keys-dump_keys xs (k ∷ keys) rest o h =
    let e : (xs ++ k ∷ []) ++ keys ≡ xs ++ k ∷ keys = append_assoc xs (k ∷ []) keys in
    let o' : IsOrdered lt ((xs ++ k ∷ []) ++ keys) = subst (IsOrdered lt) (sym e) o in
    rw
      (
        append_assoc (dump_key k) (dump_keys keys) rest,
        read_key-dump_key k (dump_keys keys ++ rest) h.0,
        drop-dump_key k (dump_keys keys ++ rest) h.0,
        insert_next lt xs k keys (λ y. lt_asymm y k) o,
      )
      (read_keys-dump_keys (xs ++ k ∷ []) keys rest o' h.1 ∙ ap got e)

read_string_list-dump :
    (now : ℕ) (names : List Str) (rest : List ℕ)
    → IsData (string_list names now)
    → read_string_list now (dump32 (length names % 4294967296) ++ (dump_names names ++ rest))
      ≡ got (string_list names now)
unfolding read_string_list
read_string_list-dump now names rest (o, size, texts) =
    let e : length names % 4294967296 ≡ length names = omega arith in
    rw
      (
        e,
        read32-dump32 (length names) (dump_names names ++ rest) size,
        drop-dump32 (length names) (dump_names names ++ rest),
        read_names-dump_names [] names rest o texts,
      )
      refl

read_key_list-dump :
    (now : ℕ) (keys : List Key) (rest : List ℕ)
    → IsData (key_list keys now)
    → read_key_list now (dump32 (length keys % 4294967296) ++ (dump_keys keys ++ rest))
      ≡ got (key_list keys now)
unfolding read_key_list
read_key_list-dump now keys rest (o, size, valid) =
    let e : length keys % 4294967296 ≡ length keys = omega arith in
    rw
      (
        e,
        read32-dump32 (length keys) (dump_keys keys ++ rest) size,
        drop-dump32 (length keys) (dump_keys keys ++ rest),
        read_keys-dump_keys [] keys rest o valid,
      )
      refl

-- If the elements of a value are in the order of the set, fewer than 2^32, and are keys of five
-- words or strings without NUL of fewer than 2^32 characters, then createData reads the bytes of
-- `dump`, whatever follows them, as a value with the same elements and the time of the read.
pub create_data-dump :
    (now : ℕ) (d : Data) (rest : List ℕ)
    → IsData d
    → create_data now (dump d ++ rest) ≡ got (at_time now d)
unfolding create_data dump at_time
create_data-dump now (string_list names t) rest h =
    rw
      (
        append_assoc (dump32 1) (dump32 (length names % 4294967296) ++ dump_names names) rest,
        append_assoc (dump32 (length names % 4294967296)) (dump_names names) rest,
        read32-dump32 1 (dump32 (length names % 4294967296) ++ (dump_names names ++ rest))
            (omega arith),
        drop-dump32 1 (dump32 (length names % 4294967296) ++ (dump_names names ++ rest)),
      )
      (read_string_list-dump now names rest h)
create_data-dump now (key_list keys t) rest h =
    rw
      (
        append_assoc (dump32 2) (dump32 (length keys % 4294967296) ++ dump_keys keys) rest,
        append_assoc (dump32 (length keys % 4294967296)) (dump_keys keys) rest,
        read32-dump32 2 (dump32 (length keys % 4294967296) ++ (dump_keys keys ++ rest))
            (omega arith),
        drop-dump32 2 (dump32 (length keys % 4294967296) ++ (dump_keys keys ++ rest)),
      )
      (read_key_list-dump now keys rest h)
