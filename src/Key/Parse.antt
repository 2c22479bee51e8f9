-- ===== src/Key/Parse.antt =====
-- operator=(std::string) of lib/util/key.cpp.
pub mod RoundTrip
use mathlib.Core.List.{append_assoc, append-nil}
use arbore_experiment.Base.{
  ℕ, zero, suc, ◌+◌, ◌-◌, ◌*◌, ◌/◌, ◌%◌, ◌<◌, ◌≡◌, refl, ap, sym, ◌∙◌, Bool, true, false, ◌&&◌,
  ◌||◌, Option, none, some, List, [], ◌∷◌, ◌++◌, ltb, leb, ◌==◌, if◌then◌else◌, length, take, drop,
  arith, All, inl, inr, Bool-cases,
}
use arbore_experiment.Key.{Key, IsKey, hex_digit, hex_digits, get_str}
use arbore_experiment.Key.Hex.{length-hex_digits}
use arbore_experiment.Netutil.{Str}
use arbore_experiment.Session.{skip_space, limited}

-- find("0x").
unfoldable pub has_mark : Str → Bool
has_mark [] = false
has_mark (c ∷ []) = false
has_mark (c ∷ d ∷ s) = (c == b'0' && d == b'x') || has_mark (d ∷ s)

unfoldable pub hex_value : ℕ → Option ℕ
hex_value c =
    if leb b'0' c && leb c b'9'
    then some (c - b'0')
    else if leb b'a' c && leb c b'f'
    then some (c - b'a' + 10)
    else if leb b'A' c && leb c b'F'
    then some (c - b'A' + 10)
    else none

-- operator>> of a stream in hexadecimal for a uint32_t: white space, a sign, a mark and digits.
unfoldable pub next_digit : (ℕ → ℕ) → ℕ → Option ℕ → ℕ
next_digit more n none = n
next_digit more n (some d) = more (n * 16 + d)

unfoldable pub hex_number : ℕ → Str → ℕ
unfolding next_digit hex_value
hex_number n [] = n
hex_number n (c ∷ cs) = next_digit (λ n. hex_number n cs) n (hex_value c)

unfoldable pub after_mark : Str → Str
after_mark [] = []
after_mark (c ∷ []) = c ∷ []
after_mark (c ∷ d ∷ s) = if c == b'0' && (d == b'x' || d == b'X') then s else c ∷ d ∷ s

unfoldable pub signed_hex : Str → ℕ
signed_hex [] = 0
signed_hex (c ∷ cs) =
    if c == b'-'
    then limited true (hex_number 0 (after_mark cs))
    else if c == b'+'
    then limited false (hex_number 0 (after_mark cs))
    else limited false (hex_number 0 (after_mark (c ∷ cs)))

unfoldable pub read_hex : Str → ℕ
read_hex s = signed_hex (skip_space s)

-- The loop: each round reads the last eight characters into the next word; words that are not
-- reached stay as they are.
unfoldable pub read_words : Key → Str → Key
read_words [] s = []
read_words (w ∷ ws) [] = w ∷ ws
read_words (w ∷ ws) (c ∷ cs) =
    let n = length (c ∷ cs) in
    let rest = read_words ws (if ltb 8 n then take (n - 8) (c ∷ cs) else []) in
    read_hex (if ltb 8 n then drop (n - 8) (c ∷ cs) else c ∷ cs) ∷ rest

unfoldable pub of_str : Key → Str → Key
of_str old s = read_words old (if has_mark s then drop 2 s else s)
