-- ===== src/StrMap.antt =====
-- std::map from strings, as lib/util/session_config.h, lib/files/dir_entry.h and
-- lib/util/pf_config.h use it: the list of its entries, in the order of their names.
pub mod Order
use arbore_experiment.Base.{
  Bool, true, false, ◌&&◌, Option, none, some, List, [], ◌∷◌, ◌==◌, if◌then◌else◌,
}
use arbore_experiment.Netutil.{Str}
use arbore_experiment.Dht.{str_lt}

-- operator== of std::string.
unfoldable pub str_eq : Str → Str → Bool
str_eq [] [] = true
str_eq [] (y ∷ ys) = false
str_eq (x ∷ xs) [] = false
str_eq (x ∷ xs) (y ∷ ys) = let rest = str_eq xs ys in if x == y then rest else false

abbrev pub StrMap {ℓ} : Type ℓ → Type ℓ
StrMap V = List (Str × V)

module _ {ℓ} {V : Type ℓ} where
  -- map::find.
  unfoldable pub find : StrMap V → Str → Option V
  find [] k = none
  find ((j, v) ∷ m) k = let rest = find m k in if str_eq k j then some v else rest

  -- map::operator[] with an assignment.
  unfoldable pub put : Str → V → StrMap V → StrMap V
  put k v [] = (k, v) ∷ []
  put k v ((j, w) ∷ m) =
      let rest = put k v m in
      if str_eq k j then (k, v) ∷ m else if str_lt k j then (k, v) ∷ (j, w) ∷ m else (j, w) ∷ rest

  -- map::erase of the entry of a name.
  unfoldable pub erase : Str → StrMap V → StrMap V
  erase k [] = []
  erase k ((j, w) ∷ m) = let rest = erase k m in if str_eq k j then rest else (j, w) ∷ rest
