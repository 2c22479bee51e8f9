-- ===== src/Tools/Tokens.antt =====
-- What stringtok of lib/util/tools.cpp gives, token by token.
use arbore_experiment.Base.{
  ℕ, ◌≤◌, ◌<◌, ◌≡◌, refl, ap, ◌∙◌, true, false, [], ◌∷◌, ◌++◌, length, arith, All, inl, inr, ◌⊎◌,
}
use arbore_experiment.Netutil.{Str}
use arbore_experiment.Tools.{is_one_of, skip_delimiters, to_delimiter, stringtok}

-- No character of the text is a delimiter.
abbrev pub Undelimited : Str → Str → Type 0
Undelimited ds s = All (λ c. is_one_of ds c ≡ false) s

to_delimiter-end : (ds s : Str) → Undelimited ds s → to_delimiter ds s ≡ (s, [])
unfolding to_delimiter
to_delimiter-end ds [] h = refl
to_delimiter-end ds (c ∷ cs) h = rw (h.0, to_delimiter-end ds cs h.1) refl

to_delimiter-token :
    (ds s : Str) (d : ℕ) (rest : Str)
    → Undelimited ds s
    → is_one_of ds d ≡ true
    → to_delimiter ds (s ++ d ∷ rest) ≡ (s, rest)
unfolding to_delimiter
to_delimiter-token ds [] d rest h k = rw k refl
to_delimiter-token ds (c ∷ cs) d rest h k = rw (h.0, to_delimiter-token ds cs d rest h.1 k) refl

skip_delimiters-none :
    (ds : Str) (c : ℕ) (cs : Str) → is_one_of ds c ≡ false → skip_delimiters ds (c ∷ cs) ≡ c ∷ cs
unfolding skip_delimiters
skip_delimiters-none ds c cs h = rw h refl

-- A token at the end, and one that a delimiter follows.
pub stringtok_last :
    (ds : Str) (c : ℕ) (cs : Str) → Undelimited ds (c ∷ cs) → stringtok ds (c ∷ cs) ≡ (c ∷ cs, [])
unfolding stringtok
stringtok_last ds c cs h =
    ap (to_delimiter ds) (skip_delimiters-none ds c cs h.0) ∙ to_delimiter-end ds (c ∷ cs) h

pub stringtok_next :
    (ds : Str) (c : ℕ) (cs : Str) (d : ℕ) (rest : Str)
    → Undelimited ds (c ∷ cs)
    → is_one_of ds d ≡ true
    → stringtok ds ((c ∷ cs) ++ d ∷ rest) ≡ (c ∷ cs, rest)
unfolding stringtok
stringtok_next ds c cs d rest h k =
    ap (to_delimiter ds) (skip_delimiters-none ds c (cs ++ d ∷ rest) h.0)
    ∙ to_delimiter-token ds (c ∷ cs) d rest h k

pub stringtok-skip :
    (ds : Str) (d : ℕ) (s : Str) → is_one_of ds d ≡ true → stringtok ds (d ∷ s) ≡ stringtok ds s
unfolding stringtok skip_delimiters
stringtok-skip ds d s k = rw k refl

skip_delimiters-length : (ds s : Str) → length (skip_delimiters ds s) ≤ length s
unfolding skip_delimiters
skip_delimiters-length ds [] = omega arith
skip_delimiters-length ds (c ∷ cs) = ground (arith, skip_delimiters-length ds cs)

to_delimiter-rest : (ds s : Str) → length (to_delimiter ds s).1 ≤ length s
unfolding to_delimiter
to_delimiter-rest ds [] = omega arith
to_delimiter-rest ds (c ∷ cs) = ground (arith, to_delimiter-rest ds cs)

to_delimiter-shorter :
    (ds : Str) (c : ℕ) (cs : Str) → length (to_delimiter ds (c ∷ cs)).1 ≤ length cs
unfolding to_delimiter
to_delimiter-shorter ds c cs = ground (arith, to_delimiter-rest ds cs)

-- What is left behind a token is shorter.
pub stringtok-rest :
    (ds s : Str) (c : ℕ) (cs rest : Str) → stringtok ds s ≡ (c ∷ cs, rest) → length rest < length s
unfolding stringtok
stringtok-rest ds s c cs rest e = left (skip_delimiters ds s) (skip_delimiters-length ds s) e
  where
    left :
        (u : Str)
        → length u ≤ length s
        → to_delimiter ds u ≡ (c ∷ cs, rest)
        → length rest < length s
    left [] l e = absurd (unfold to_delimiter in cc)
    left (x ∷ xs) l e =
        omega (arith, to_delimiter-shorter ds x xs, ap (λ (t : Str × Str). length t.1) e)

pub stringtok_cases :
    (ds s : Str) → ((stringtok ds s).0 ≡ []) ⊎ (length (stringtok ds s).1 < length s)
stringtok_cases ds s = split (stringtok ds s) refl
  where
    split : (p : Str × Str) → stringtok ds s ≡ p → (p.0 ≡ []) ⊎ (length p.1 < length s)
    split ([], rest) e = inl refl
    split (c ∷ cs, rest) e = inr (stringtok-rest ds s c cs rest e)
