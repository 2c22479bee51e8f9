-- ===== src/Key.antt =====
-- lib/util/key.cpp and key.h: the 160-bit identifiers of hosts and data. A key is its array of
-- nlen words of 32 bits, the least significant word first, as in the source.
pub mod Order
pub mod Distance
pub mod Hex
pub mod Parse
pub mod Index
pub mod Bytes
use arbore_experiment.Base.{
  ℕ, zero, suc, ◌+◌, ◌-◌, ◌*◌, ◌/◌, ◌%◌, ◌≤◌, ◌<◌, ◌≡◌, Bool, true, false, Option, none, some, ◌&&◌,
  ◌||◌, List, [], ◌∷◌, ◌++◌, ltb, leb, ◌==◌, if◌then◌else◌, length, get_or, replicate, All,
}

-- The words t[0], t[1], ...
abbrev pub Key : Type 0
Key = List ℕ

-- Key::nlen, from KEY_SIZE.
abbrev pub nlen : ℕ
nlen = 5

abbrev uint_max : ℕ
uint_max = 4294967295

abbrev pub word_mod : ℕ
word_mod = 4294967296

pub record IsKey (k : Key) : Type 0 where
  pub sized : length k ≡ nlen
  pub words : All (λ w. w < word_mod) k

-- Key(uint32_t): the given word, below zeros.
unfoldable pub of_word : ℕ → Key
of_word ul = ul ∷ replicate (nlen - 1) 0

-- Key().
abbrev pub zero_key : Key
zero_key = 0 ∷ 0 ∷ 0 ∷ 0 ∷ 0 ∷ []

-- Init_Max and Init_Half.
abbrev pub key_max : Key
key_max = uint_max ∷ uint_max ∷ uint_max ∷ uint_max ∷ uint_max ∷ []

abbrev pub key_half : Key
key_half = uint_max ∷ uint_max ∷ uint_max ∷ uint_max ∷ (uint_max / 2) ∷ []

-- operator==: the loop stops at the first word that differs.
unfoldable pub eq : Key → Key → Bool
eq [] [] = true
eq (x ∷ xs) (y ∷ ys) = elim (x == y) [ true ↦ eq xs ys | false ↦ false ]
eq _ _ = false

-- operator! : no word is positive.
unfoldable pub is_null : Key → Bool
is_null [] = true
is_null (x ∷ xs) = elim (ltb 0 x) [ true ↦ false | false ↦ is_null xs ]

-- operator> runs from the word nlen - 1 down to 0. The head is the lowest index, so the loop has
-- been through the tail before; `none` means that it has not returned there.
unfoldable pub gt_down : Key → Key → Option Bool
gt_down (x ∷ xs) (y ∷ ys) = elim (gt_down xs ys) [
  | some r ↦ some r
  | none ↦ if ltb y x then some true else if ltb x y then some false else none
]
gt_down _ _ = none

abbrev pub after_loop : Option Bool → Bool
after_loop none = false
after_loop (some r) = r

unfoldable pub gt : Key → Key → Bool
unfolding gt_down
gt a b = after_loop (gt_down a b)

-- operator<, the same loop with the tests exchanged.
unfoldable pub lt_down : Key → Key → Option Bool
lt_down (x ∷ xs) (y ∷ ys) = elim (lt_down xs ys) [
  | some r ↦ some r
  | none ↦ if ltb x y then some true else if ltb y x then some false else none
]
lt_down _ _ = none

unfoldable pub lt : Key → Key → Bool
unfolding lt_down
lt a b = after_loop (lt_down a b)

-- The loop of operator-, from the word 0 up with its carry. The doubles a, b and tmp hold whole
-- numbers between -1 and 2 ^ 33, so they are exact; the test b <= a with a = t[i] - carry is
-- written b + carry <= t[i].
unfoldable pub sub_loop : ℕ → Key → Key → Key
sub_loop carry (x ∷ xs) (y ∷ ys) = elim (leb (y + carry) x) [
  | true ↦ (x - (y + carry)) ∷ sub_loop 0 xs ys
  | false ↦ (x + uint_max + 1 - (y + carry)) ∷ sub_loop 1 xs ys
]
sub_loop carry _ _ = []

-- operator-: a refused subtraction logs an error and returns the null key.
unfoldable pub sub : Key → Key → Key
sub a b = if lt a b then zero_key else sub_loop 0 a b

unfoldable pub distance : Key → Key → Key
distance a b =
    let diff = if gt a b then sub a b else sub b a in
    if gt diff key_half then sub key_max diff else diff

-- A bool that the source keeps in an int.
abbrev int_of_bool : Bool → ℕ
int_of_bool true = 1
int_of_bool false = 0

-- between: left < right and so on are 0 or 1, and the source tests them for negative values.
unfoldable pub between : Key → Key → Key → Bool
between k left right =
    let complr = int_of_bool (lt left right) in
    let complt = int_of_bool (lt left k) in
    let comptr = int_of_bool (lt k right) in
    if (complt == 0) || (comptr == 0)
    then true
    else if ltb complr 0
    then (if ltb complt 0 && ltb comptr 0 then true else false)
    else if complr == 0
    then false
    else if ltb complt 0 || ltb comptr 0
    then true
    else false

-- A character of "%x" for a digit below 16.
unfoldable pub hex_digit : ℕ → ℕ
hex_digit d = if ltb d 10 then b'0' + d else b'a' + (d - 10)

-- The last n hexadecimal digits of a number, the highest first: "%0nx" of a number that has
-- at most n digits.
unfoldable pub hex_digits : ℕ → ℕ → List ℕ
hex_digits zero w = []
hex_digits (suc n) w = hex_digits n (w / 16) ++ hex_digit (w % 16) ∷ []

abbrev word : Key → ℕ → ℕ
word k i = get_or k i 0

-- GetStr: "0x%08x%08x%08x%08x%08x" of the words from the highest to the lowest.
unfoldable pub get_str : Key → List ℕ
get_str k =
    b'0'
    ∷ b'x'
    ∷ (hex_digits 8 (word k 4)
        ++ (hex_digits 8 (word k 3)
            ++ (hex_digits 8 (word k 2) ++ (hex_digits 8 (word k 1) ++ hex_digits 8 (word k 0)))))

-- HEXA_KEYLENGTH.
abbrev hexa_keylength : ℕ
hexa_keylength = 40

-- The loop of key_index: the index of the first difference, at most the given bound.
unfoldable pub same_prefix : ℕ → List ℕ → List ℕ → ℕ
same_prefix (suc m) (x ∷ xs) (y ∷ ys) = elim (x == y) [
  | true ↦ suc (same_prefix m xs ys)
  | false ↦ 0
]
same_prefix _ _ _ = 0

unfoldable pub key_index : Key → Key → ℕ
key_index me k =
    let i = same_prefix hexa_keylength (get_str me) (get_str k) in
    if i == hexa_keylength then hexa_keylength - 1 else i

-- operator bool: some word is positive.
unfoldable pub to_bool : Key → Bool
to_bool [] = false
to_bool (x ∷ xs) = elim (ltb 0 x) [ true ↦ true | false ↦ to_bool xs ]
