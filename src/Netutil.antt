-- ===== src/Netutil.antt =====
-- lib/net/netutil.cpp: numbers and strings in network byte order. A buffer is the bytes from the
-- pointer on; a read that needs more bytes than there are is past_end.
pub mod RoundTrip
use arbore_experiment.Base.{
  ℕ, zero, suc, ◌+◌, ◌*◌, ◌/◌, ◌%◌, Bool, true, false, List, [], ◌∷◌, ◌++◌, ◌==◌, if◌then◌else◌,
  length, drop,
}

-- What a read gives. `malformed` is the exception Packet::Malformated.
pub data Read {ℓ} (A : Type ℓ) : Type ℓ where
  got : A → Read A
  malformed : Read A
  past_end : Read A

infixl 5 ◌>>=◌
abbrev pub ◌>>=◌ {ℓ κ} : {A : Type ℓ} {B : Type κ} → Read A → (A → Read B) → Read B
got a >>= f = f a
malformed >>= f = malformed
past_end >>= f = past_end

abbrev pub Str : Type 0
Str = List ℕ

-- dump(uint32_t).
unfoldable pub dump32 : ℕ → List ℕ
dump32 n = (n / 16777216) % 256 ∷ (n / 65536) % 256 ∷ (n / 256) % 256 ∷ n % 256 ∷ []

-- ReadInt32.
unfoldable pub read32 : List ℕ → Read ℕ
read32 (a ∷ b ∷ c ∷ d ∷ rest) = got (a * 16777216 + b * 65536 + c * 256 + d)
read32 _ = past_end

-- dump(uint64_t) and ReadInt64.
unfoldable pub dump64 : ℕ → List ℕ
dump64 n = dump32 (n / 4294967296) ++ dump32 (n % 4294967296)

unfoldable pub read64 : List ℕ → Read ℕ
read64 buff = do high ← read32 buff; low ← read32 (drop 4 buff); got (high * 4294967296 + low)

-- dump(const std::string&): the length, cast to 32 bits, and the characters.
unfoldable pub dump_str : Str → List ℕ
dump_str s = dump32 (length s % 4294967296) ++ s

-- getSerialisedSize(const std::string&).
unfoldable pub str_size : Str → ℕ
str_size s = length s + 4

-- memcpy of so many bytes.
unfoldable pub copy : ℕ → List ℕ → Read (List ℕ)
copy zero buff = got []
copy (suc n) [] = past_end
copy (suc n) (b ∷ buff) = do bytes ← copy n buff; got (b ∷ bytes)

-- The string that begins at a char pointer ends at the first NUL.
unfoldable pub to_nul : List ℕ → Str
to_nul [] = []
to_nul (b ∷ bytes) = let rest = to_nul bytes in if b == 0 then [] else b ∷ rest

-- ReadStr.
unfoldable pub read_str : List ℕ → Read Str
read_str buff = do size ← read32 buff; bytes ← copy size (drop 4 buff); got (to_nul bytes)
