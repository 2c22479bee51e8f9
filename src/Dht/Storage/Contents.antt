-- ===== src/Dht/Storage/Contents.antt =====
-- What the operations of lib/dht/storage.cpp do to the sets of information.
use arbore_experiment.Base.{
  ℕ, ◌≡◌, refl, sym, ap, ◌∙◌, true, false, ◌&&◌, not, Option, none, some, List, [], ◌∷◌,
  if◌then◌else◌, arith, inl, inr, Bool-cases,
}
use arbore_experiment.Key.{Key, eq, lt}
use arbore_experiment.Key.Order.{eq_iff}
use arbore_experiment.Dht.{Data, string_list, key_list, insert, erase, new_key, is_empty}
use arbore_experiment.Dht.Storage.{
  Storage, done, find, put, erase_entry, is_found, is_keys, is_strings, has_key, is_key_list,
  is_string_list, with_key, add_key, remove_key, without_key, settle, remove_found_key,
  remove_info_key,
}

eq_meet : (k a b : Key) → eq k a ≡ true → eq k b ≡ true → eq a b ≡ true
eq_meet k a b ha hb = (eq_iff a b).1 (sym ((eq_iff k a).0 ha) ∙ (eq_iff k b).0 hb)

eq_alike : (k a b : Key) → eq a b ≡ true → eq k a ≡ eq k b
eq_alike k a b h = ap (eq k) ((eq_iff a b).0 h)

pub find-put :
    (k : Key) (d : Data) (s : Storage) (k' : Key)
    → find (put k d s) k' ≡ (if eq k' k then some d else find s k')
unfolding find put
find-put k d [] k' = refl
find-put k d ((j, e) ∷ s) k' = elim (Bool-cases (eq k j)) [
  | inl hit ↦ rw (hit, ← eq_alike k' k j hit) (ground arith)
  | inr miss ↦ rw miss (ground (arith, find-put k d s k', eq_meet k' k j))
]

find-erase_entry :
    (k : Key) (s : Storage) (k' : Key)
    → find (erase_entry k s) k' ≡ (if eq k' k then none else find s k')
unfolding find erase_entry
find-erase_entry k [] k' = ground arith
find-erase_entry k ((j, e) ∷ s) k' = elim (Bool-cases (eq k j)) [
  | inl hit ↦ rw (hit, ← eq_alike k' k j hit) (ground (arith, find-erase_entry k s k'))
  | inr miss ↦ rw miss (ground (arith, find-erase_entry k s k', eq_meet k' k j))
]

-- The keys that stand under a key.
unfoldable pub keys_of : Option Data → List Key
keys_of (some (key_list keys t)) = keys
keys_of _ = []

unfoldable pub keys_at : Storage → Key → List Key
unfolding keys_of
keys_at s k = keys_of (find s k)

pub guard_passed :
    (o : Option Data) → is_strings o ≡ false → (is_found o && not (is_keys o)) ≡ false
unfolding is_strings is_found is_keys
guard_passed none h = refl
guard_passed (some (key_list keys t)) h = refl
guard_passed (some (string_list names t)) h = absurd (ground arith)

pub keys_of-with_key :
    (now : ℕ) (info : Key) (o : Option Data)
    → (is_found o && not (is_keys o)) ≡ false
    → keys_of (some (with_key now info o)) ≡ insert lt info (keys_of o)
unfolding keys_of with_key is_found is_keys insert new_key
keys_of-with_key now info none h = refl
keys_of-with_key now info (some (key_list keys t)) h = refl
keys_of-with_key now info (some (string_list names t)) h = absurd (ground arith)

-- If no list of strings stands under the key, then addInfo of a key to it returns; the keys that
-- are found under the key are then those before with the new one inserted, and those under every
-- other key are unchanged.
pub add_key-keys_at :
    (now : ℕ) (s : Storage) (k info k' : Key)
    → is_string_list s k ≡ false
    → (s' : Storage) × (add_key now s k info ≡ done s')
      × (keys_at s' k' ≡ (if eq k' k then insert lt info (keys_at s k) else keys_at s k'))
unfolding add_key keys_at has_key is_key_list is_string_list
add_key-keys_at now s k info k' h =
    let ok : (is_found (find s k) && not (is_keys (find s k))) ≡ false =
      guard_passed (find s k) h in
    (
      put k (with_key now info (find s k)) s,
      rw ok refl,
      ground (
        arith,
        find-put k (with_key now info (find s k)) s k',
        keys_of-with_key now info (find s k),
      ),
    )

pub eq_self : (k : Key) → eq k k ≡ true
eq_self k = (eq_iff k k).1 refl

is_empty-keys_of : (keys : List Key) (t : ℕ) → is_empty (key_list keys t) ≡ true → keys ≡ []
unfolding is_empty
is_empty-keys_of [] t h = refl
is_empty-keys_of (x ∷ xs) t h = absurd (ground arith)

-- The entry is put back, or erased if its set is empty.
settle-keys_at :
    (s : Storage) (k : Key) (keys : List Key) (t : ℕ) (k' : Key)
    → (s' : Storage) × (settle s k (key_list keys t) ≡ done s')
      × (keys_at s' k' ≡ (if eq k' k then keys else keys_at s k'))
unfolding settle keys_at keys_of remove_key has_key is_found
settle-keys_at s k keys t k' =
    let d = key_list keys t in
    let there : find (put k d s) k ≡ some d = rw (find-put k d s k, eq_self k) refl in
    elim (Bool-cases (is_empty d)) [
      | inl none_left ↦ (
        erase_entry k (put k d s),
        rw (none_left, there) refl,
        ground (
          arith,
          find-erase_entry k (put k d s) k',
          find-put k d s k',
          is_empty-keys_of keys t none_left,
        ),
      )
      | inr left ↦ (put k d s, rw left refl, ground (arith, find-put k d s k'))
    ]

erase_found :
    (s : Storage) (k info k' : Key) (o : Option Data)
    → find s k ≡ o
    → is_strings o ≡ false
    → (s' : Storage) × (remove_found_key s k info o ≡ done s')
      × (keys_at s' k' ≡ (if eq k' k then erase lt info (keys_of o) else keys_at s k'))
unfolding remove_found_key without_key keys_of is_strings erase keys_at
erase_found s k info k' none e h = (s, refl, ground (arith, eq_iff k' k, e))
erase_found s k info k' (some (key_list keys t)) e h = settle-keys_at s k (erase lt info keys) t k'
erase_found s k info k' (some (string_list names t)) e h = absurd (ground arith)

-- If no list of strings stands under the key, then removeInfo of a key from it returns; the keys
-- that are found under the key are then those before without that one, also if the whole entry was
-- erased, and those under every other key are unchanged.
pub remove_info_key-keys_at :
    (s : Storage) (k info k' : Key)
    → is_string_list s k ≡ false
    → (s' : Storage) × (remove_info_key s k info ≡ done s')
      × (keys_at s' k' ≡ (if eq k' k then erase lt info (keys_at s k) else keys_at s k'))
unfolding remove_info_key has_key is_key_list is_string_list keys_at
remove_info_key-keys_at s k info k' h =
    let ok : (is_found (find s k) && not (is_keys (find s k))) ≡ false =
      guard_passed (find s k) h in
    let (s', is, at) = erase_found s k info k' (find s k) refl h in (s', rw ok is, at)
