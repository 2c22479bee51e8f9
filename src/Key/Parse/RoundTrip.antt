-- ===== src/Key/Parse/RoundTrip.antt =====
-- operator=(std::string) of lib/util/key.cpp reads what GetStr prints.
use mathlib.Core.List.{append_assoc, append-nil}
use native.Mathlib.Nat.{pow-suc}
use arbore_experiment.Base.{
  ℕ, zero, suc, ◌+◌, ◌-◌, ◌*◌, ◌/◌, ◌%◌, ◌^◌, ◌<◌, ◌≤◌, ◌≡◌, ◌≢◌, refl, ap, sym, ◌∙◌, true, false,
  ◌&&◌, ◌||◌, some, [], ◌∷◌, ◌++◌, ltb, leb, ◌==◌, if◌then◌else◌, length, take, drop, length-append,
  drop_by, take_by, arith, All,
}
use arbore_experiment.Key.{Key, IsKey, hex_digit, hex_digits, get_str}
use arbore_experiment.Key.Hex.{length-hex_digits}
use arbore_experiment.Key.Parse.{
  has_mark, hex_value, next_digit, hex_number, after_mark, signed_hex, read_hex, read_words, of_str,
}
use arbore_experiment.Netutil.{Str}
use arbore_experiment.Session.{is_space, skip_space, limited}

hex_value-hex_digit : (d : ℕ) → d < 16 → hex_value (hex_digit d) ≡ some d
unfolding hex_value hex_digit
hex_value-hex_digit d h = ground arith

hex_number-digit :
    (n d : ℕ) (rest : Str)
    → d < 16
    → hex_number n (hex_digit d ∷ rest) ≡ hex_number (n * 16 + d) rest
unfolding hex_number next_digit
hex_number-digit n d rest h = rw (hex_value-hex_digit d h) refl

-- The digits of a number are read as that number.
hex_number-hex_digits :
    (k w : ℕ) (rest : Str) → w < 16 ^ k → hex_number 0 (hex_digits k w ++ rest) ≡ hex_number w rest
unfolding hex_digits
hex_number-hex_digits zero w rest h = ap (λ n. hex_number n rest) (omega arith)
hex_number-hex_digits (suc k) w rest h =
    let e : w / 16 * 16 + w % 16 ≡ w = omega arith in
    rw
      (
        append_assoc (hex_digits k (w / 16)) (hex_digit (w % 16) ∷ []) rest,
        hex_number-hex_digits k (w / 16) (hex_digit (w % 16) ∷ rest) (omega (arith, pow-suc 16 k)),
        hex_number-digit (w / 16) (w % 16) rest (omega arith),
        e,
      )
      refl

-- A character of a number, which is no space, sign or mark.
abbrev IsHex : ℕ → Type 0
IsHex c = (b'0' ≤ c) × (c ≤ b'f') × (c ≢ b'X')

All-append : (s t : Str) → All IsHex s → All IsHex t → All IsHex (s ++ t)
All-append [] t h k = k
All-append (c ∷ cs) t h k = (h.0, All-append cs t h.1 k)

hex_digits-IsHex : (k w : ℕ) → All IsHex (hex_digits k w)
unfolding hex_digits hex_digit
hex_digits-IsHex zero w = tt
hex_digits-IsHex (suc k) w =
    All-append (hex_digits k (w / 16)) (hex_digit (w % 16) ∷ []) (hex_digits-IsHex k (w / 16))
      (ground arith, tt)

read_hex-IsHex :
    (s : Str) → 2 ≤ length s → All IsHex s → read_hex s ≡ limited false (hex_number 0 s)
unfolding read_hex signed_hex skip_space is_space after_mark
read_hex-IsHex [] l h = absurd (omega arith)
read_hex-IsHex (c ∷ []) l h = absurd (omega arith)
read_hex-IsHex (c ∷ d ∷ s) l h =
    let space : (c == b' ' || (leb 9 c && leb c 13)) ≡ false = ground (arith, h.0) in
    let minus : (c == b'-') ≡ false = ground (arith, h.0) in
    let plus : (c == b'+') ≡ false = ground (arith, h.0) in
    let mark : (c == b'0' && (d == b'x' || d == b'X')) ≡ false = ground (arith, h.1.0) in
    rw (space, minus, plus, mark) refl

read_hex-hex_digits : (w : ℕ) → w < 4294967296 → read_hex (hex_digits 8 w) ≡ w
read_hex-hex_digits w h =
    let n = hex_number-hex_digits 8 w [] (omega arith) in
    let end : hex_number w [] ≡ w = unfold hex_number in refl in
    let small : limited false w ≡ w = unfold limited in ground arith in
    read_hex-IsHex (hex_digits 8 w) (omega (arith, length-hex_digits 8 w)) (hex_digits-IsHex 8 w)
    ∙ ap (limited false) (sym (ap (hex_number 0) (append-nil (hex_digits 8 w))) ∙ n ∙ end)
    ∙ small

read_words-some :
    (old : ℕ) (ws : Key) (t : Str)
    → 0 < length t
    → read_words (old ∷ ws) t
      ≡ read_hex (if ltb 8 (length t) then drop (length t - 8) t else t)
        ∷ read_words ws (if ltb 8 (length t) then take (length t - 8) t else [])
unfolding read_words
read_words-some old ws [] h = absurd (omega arith)
read_words-some old ws (c ∷ cs) h = refl

-- The last eight digits are the lowest word, and those before them the words above it.
read_words-step :
    (old v : ℕ) (ws : Key) (s : Str)
    → v < 4294967296
    → 0 < length s
    → read_words (old ∷ ws) (s ++ hex_digits 8 v) ≡ v ∷ read_words ws s
read_words-step old v ws s h l =
    let t = s ++ hex_digits 8 v in
    let n : length t ≡ length s + 8 =
      omega (arith, length-append s (hex_digits 8 v), length-hex_digits 8 v) in
    let many : ltb 8 (length t) ≡ true = ground (arith, n, l) in
    let low : drop (length t - 8) t ≡ hex_digits 8 v =
      drop_by (length t - 8) s (hex_digits 8 v) (omega (arith, n)) in
    let high : take (length t - 8) t ≡ s =
      take_by (length t - 8) s (hex_digits 8 v) (omega (arith, n)) in
    read_words-some old ws t (omega (arith, n, l))
    ∙ rw (many, low, high, read_hex-hex_digits v h) refl

read_words-last : (old v : ℕ) → v < 4294967296 → read_words (old ∷ []) (hex_digits 8 v) ≡ v ∷ []
unfolding read_words
read_words-last old v h =
    let n = length-hex_digits 8 v in
    let few : ltb 8 (length (hex_digits 8 v)) ≡ false = ground (arith, n) in
    read_words-some old [] (hex_digits 8 v) (omega (arith, n))
    ∙ rw (few, read_hex-hex_digits v h) refl

-- For a key of five words, the assignment of the string that GetStr prints gives that key,
-- whatever the key had before.
pub of_str-get_str : (old k : Key) → length old ≡ 5 → IsKey k → of_str old (get_str k) ≡ k
unfolding of_str get_str has_mark
of_str-get_str (o0 ∷ o1 ∷ o2 ∷ o3 ∷ o4 ∷ []) (a ∷ b ∷ c ∷ d ∷ e ∷ []) l h =
    let w = h.words in
    let s4 = hex_digits 8 e in
    let s3 = s4 ++ hex_digits 8 d in
    let s2 = s3 ++ hex_digits 8 c in
    let s1 = s2 ++ hex_digits 8 b in
    let n4 = length-hex_digits 8 e in
    let n3 = length-append s4 (hex_digits 8 d) in
    let n2 = length-append s3 (hex_digits 8 c) in
    let n1 = length-append s2 (hex_digits 8 b) in
    let left : s4 ++ (hex_digits 8 d ++ (hex_digits 8 c ++ (hex_digits 8 b ++ hex_digits 8 a)))
        ≡ s1 ++ hex_digits 8 a =
      simp append_assoc in
    ap (read_words (o0 ∷ o1 ∷ o2 ∷ o3 ∷ o4 ∷ [])) left
    ∙ read_words-step o0 a (o1 ∷ o2 ∷ o3 ∷ o4 ∷ []) s1 w.0 (omega (arith, n1, n2, n3, n4))
    ∙ ap (◌∷◌ a) (
        read_words-step o1 b (o2 ∷ o3 ∷ o4 ∷ []) s2 w.1.0 (omega (arith, n2, n3, n4))
        ∙ ap (◌∷◌ b) (
            read_words-step o2 c (o3 ∷ o4 ∷ []) s3 w.1.1.0 (omega (arith, n3, n4))
            ∙ ap (◌∷◌ c) (
                read_words-step o3 d (o4 ∷ []) s4 w.1.1.1.0 (omega (arith, n4))
                ∙ ap (◌∷◌ d) (read_words-last o4 e w.1.1.1.1.0))))
of_str-get_str (o0 ∷ o1 ∷ o2 ∷ o3 ∷ o4 ∷ []) _ l h = absurd (omega (arith, h.sized))
of_str-get_str _ k l h = absurd (omega (arith, l))
