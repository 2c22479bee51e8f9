-- ===== src/Netutil/RoundTrip.antt =====
-- What lib/net/netutil.cpp writes, it reads again.
use mathlib.Core.List.{append_assoc}
use arbore_experiment.Base.{
  ℕ, suc, ◌+◌, ◌/◌, ◌%◌, ◌≡◌, ◌≢◌, ◌<◌, refl, ap, ◌∙◌, List, [], ◌∷◌, ◌++◌, length, drop,
  drop-append, All, arith,
}
use arbore_experiment.Netutil.{
  got, Str, dump32, read32, dump64, read64, dump_str, str_size, copy, to_nul, read_str,
}

pub read32-dump32 : (n : ℕ) (rest : List ℕ) → n < 4294967296 → read32 (dump32 n ++ rest) ≡ got n
unfolding read32 dump32
read32-dump32 n rest h = ap got (omega arith)

pub drop-dump32 : (n : ℕ) (rest : List ℕ) → drop 4 (dump32 n ++ rest) ≡ rest
unfolding dump32
drop-dump32 n rest = refl

-- For a number below 2^64, ReadInt64 reads the bytes of `dump`, whatever follows them, as that
-- number.
pub read64-dump64 :
    (n : ℕ) (rest : List ℕ) → n < 18446744073709551616 → read64 (dump64 n ++ rest) ≡ got n
unfolding read64 dump64
read64-dump64 n rest h =
    rw
      (
        append_assoc (dump32 (n / 4294967296)) (dump32 (n % 4294967296)) rest,
        read32-dump32 (n / 4294967296) (dump32 (n % 4294967296) ++ rest) (omega arith),
        drop-dump32 (n / 4294967296) (dump32 (n % 4294967296) ++ rest),
        read32-dump32 (n % 4294967296) rest (omega arith),
      )
      (ap got (omega arith))

pub copy-append : (s rest : List ℕ) → copy (length s) (s ++ rest) ≡ got s
unfolding copy
copy-append [] rest = refl
copy-append (x ∷ xs) rest = rw (copy-append xs rest) refl

-- No character is NUL.
abbrev pub IsText : Str → Type 0
IsText s = All (λ b. b ≢ 0) s

to_nul-IsText : (s : Str) → IsText s → to_nul s ≡ s
unfolding to_nul
to_nul-IsText [] h = refl
to_nul-IsText (x ∷ xs) h = ground (arith, to_nul-IsText xs h.1)

-- For a string without NUL of fewer than 2^32 characters, ReadStr reads the bytes of `dump`,
-- whatever follows them, as that string.
pub read_str-dump_str :
    (s : Str) (rest : List ℕ)
    → IsText s
    → length s < 4294967296
    → read_str (dump_str s ++ rest) ≡ got s
unfolding read_str dump_str
read_str-dump_str s rest text h =
    let e : length s % 4294967296 ≡ length s = omega arith in
    rw
      (
        e,
        append_assoc (dump32 (length s)) s rest,
        read32-dump32 (length s) (s ++ rest) h,
        drop-dump32 (length s) (s ++ rest),
        copy-append s rest,
        to_nul-IsText s text,
      )
      refl

pub drop-dump_str : (s : Str) (rest : List ℕ) → drop (str_size s) (dump_str s ++ rest) ≡ rest
unfolding str_size dump_str
drop-dump_str s rest =
    let e : length s + 4 ≡ suc (suc (suc (suc (length s)))) = omega arith in
    ap (λ n. drop n ((dump32 (length s % 4294967296) ++ s) ++ rest)) e
    ∙ (unfold dump32 in drop-append s rest)
