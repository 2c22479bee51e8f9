-- ===== src/Dht/Storage/Lists.antt =====
-- addInfo of lib/dht/storage.cpp for a whole list of keys.
use arbore_experiment.Base.{
  ℕ, ◌≡◌, refl, ◌∙◌, false, ◌&&◌, not, Option, none, some, List, [], ◌∷◌, if◌then◌else◌, arith,
}
use arbore_experiment.Key.{Key, eq, lt}
use arbore_experiment.Key.Order.{eq_iff}
use arbore_experiment.Dht.{Data, string_list, key_list, insert, new_key}
use arbore_experiment.Dht.Storage.{
  Storage, Outcome, done, find, put, is_found, is_keys, is_strings, has_key, is_key_list,
  is_string_list, with_key, add_key, add_keys,
}
use arbore_experiment.Dht.Storage.Contents.{
  keys_at, find-put, eq_self, guard_passed, keys_of-with_key,
}

with_key-keys :
    (now : ℕ) (info : Key) (o : Option Data)
    → is_strings o ≡ false
    → is_strings (some (with_key now info o)) ≡ false
unfolding is_strings with_key new_key
with_key-keys now info none h = refl
with_key-keys now info (some (key_list keys t)) h = refl
with_key-keys now info (some (string_list names t)) h = absurd (ground arith)

-- A storage after additions under a key: no list of strings is there, and what other keys have.
abbrev pub Adds : Storage → Key → List Key → Outcome → Type 0
Adds s k keys o =
    (s' : Storage) × (o ≡ done s')
    × (is_string_list s' k ≡ false)
    × ((k' : Key) → keys_at s' k' ≡ (if eq k' k then keys else keys_at s k'))

add_key-Adds :
    (now : ℕ) (s : Storage) (k info : Key)
    → is_string_list s k ≡ false
    → Adds s k (insert lt info (keys_at s k)) (add_key now s k info)
unfolding is_string_list add_key has_key is_key_list keys_at
add_key-Adds now s k info h =
    let ok : (is_found (find s k) && not (is_keys (find s k))) ≡ false =
      guard_passed (find s k) h in
    let d = with_key now info (find s k) in
    (
      put k d s,
      rw ok refl,
      rw (find-put k d s k, eq_self k) (with_key-keys now info (find s k) h),
      λ k'. ground (arith, find-put k d s k', keys_of-with_key now info (find s k)),
    )

-- The keys of a list, inserted one after the other.
unfoldable pub insert_all : List Key → List Key → List Key
insert_all [] keys = keys
insert_all (x ∷ xs) keys = insert_all xs (insert lt x keys)

pub add_keys-Adds :
    (now : ℕ) (s : Storage) (k : Key) (xs : List Key)
    → is_string_list s k ≡ false
    → Adds s k (insert_all xs (keys_at s k)) (add_keys now s k xs)
unfolding add_keys insert_all
add_keys-Adds now s k [] h = (s, refl, h, λ k'. ground (arith, eq_iff k' k))
add_keys-Adds now s k (x ∷ xs) h =
    let (s1, is, h1, at) = add_key-Adds now s k x h in
    let (s2, is', h2, at') = add_keys-Adds now s1 k xs h1 in
    let here : keys_at s1 k ≡ insert lt x (keys_at s k) = at k ∙ rw (eq_self k) refl in
    (s2, rw is is', h2, λ k'. at' k' ∙ rw here (ground (arith, at k')))
