-- ===== src/Tools.antt =====
-- stringtok of lib/util/tools.cpp.
pub mod Tokens
use arbore_experiment.Base.{Bool, true, false, ◌||◌, ℕ, List, [], ◌∷◌, ◌==◌, if◌then◌else◌}
use arbore_experiment.Netutil.{Str}

unfoldable pub is_one_of : Str → ℕ → Bool
is_one_of [] c = false
is_one_of (d ∷ ds) c = c == d || is_one_of ds c

-- find_first_not_of: what is behind the delimiters at the beginning.
unfoldable pub skip_delimiters : Str → Str → Str
unfolding is_one_of
skip_delimiters ds [] = []
skip_delimiters ds (c ∷ cs) =
    let rest = skip_delimiters ds cs in if is_one_of ds c then rest else c ∷ cs

-- find_first_of: the text before the first delimiter and the one behind it.
unfoldable pub to_delimiter : Str → Str → Str × Str
unfolding is_one_of
to_delimiter ds [] = ([], [])
to_delimiter ds (c ∷ cs) =
    let (token, rest) = to_delimiter ds cs in if is_one_of ds c then ([], cs) else (c ∷ token, rest)

-- The token, and what is left of the string.
unfoldable pub stringtok : Str → Str → Str × Str
stringtok ds s = to_delimiter ds (skip_delimiters ds s)
