-- ===== src/StrMap/Order.antt =====
-- The entries of a map from strings stay in order, and what is found among them.
use arbore_experiment.Base.{
  ◌≡◌, refl, sym, subst, ◌↔◌, inl, inr, true, false, Bool-cases, none, some, [], ◌∷◌, ◌++◌,
  if◌then◌else◌, All, arith,
}
use arbore_experiment.Netutil.{Str}
use arbore_experiment.Dht.{str_lt}
use arbore_experiment.StrMap.{str_eq, StrMap, find, put, erase}

str_eq→eq : (a b : Str) → str_eq a b ≡ true → a ≡ b
unfolding str_eq
str_eq→eq [] [] h = refl
str_eq→eq [] (y ∷ ys) h = absurd (ground arith)
str_eq→eq (x ∷ xs) [] h = absurd (ground arith)
str_eq→eq (x ∷ xs) (y ∷ ys) h = ground (arith, str_eq→eq xs ys)

str_eq_self : (a : Str) → str_eq a a ≡ true
unfolding str_eq
str_eq_self [] = refl
str_eq_self (x ∷ xs) = ground (arith, str_eq_self xs)

pub str_eq_iff : (a b : Str) → (str_eq a b ≡ true) ↔ (a ≡ b)
str_eq_iff a b = (str_eq→eq a b, λ e. rw e (str_eq_self b))

pub str_lt_trans : (a b c : Str) → str_lt a b ≡ true → str_lt b c ≡ true → str_lt a c ≡ true
unfolding str_lt
str_lt_trans [] [] c h k = absurd (ground arith)
str_lt_trans (x ∷ xs) [] c h k = absurd (ground arith)
str_lt_trans [] (y ∷ ys) [] h k = absurd (ground arith)
str_lt_trans (x ∷ xs) (y ∷ ys) [] h k = absurd (ground arith)
str_lt_trans [] (y ∷ ys) (z ∷ zs) h k = refl
str_lt_trans (x ∷ xs) (y ∷ ys) (z ∷ zs) h k = ground (arith, str_lt_trans xs ys zs)

pub str_lt_total : (a b : Str) → str_eq a b ≡ false → str_lt a b ≡ false → str_lt b a ≡ true
unfolding str_lt str_eq
str_lt_total [] [] e h = absurd (ground arith)
str_lt_total [] (y ∷ ys) e h = absurd (ground arith)
str_lt_total (x ∷ xs) [] e h = refl
str_lt_total (x ∷ xs) (y ∷ ys) e h = ground (arith, str_lt_total xs ys)

-- A greater string is another one, and not less.
pub str_lt→later : (a b : Str) → str_lt a b ≡ true → (str_eq b a ≡ false) × (str_lt b a ≡ false)
unfolding str_lt str_eq
str_lt→later [] [] h = absurd (ground arith)
str_lt→later [] (y ∷ ys) h = (refl, refl)
str_lt→later (x ∷ xs) [] h = absurd (ground arith)
str_lt→later (x ∷ xs) (y ∷ ys) h = ground (arith, str_lt→later xs ys)

differs : (k i j : Str) → str_eq k i ≡ false → j ≡ i → str_eq j k ≡ false
differs k i j miss e = elim (Bool-cases (str_eq j k)) [
  | inl same ↦ absurd (ground (arith, str_eq_iff j k, str_eq_iff k i, miss, e, same))
  | inr other ↦ other
]

module _ {ℓ} {V : Type ℓ} where
  -- Each name is less than all those behind it.
  abbrev pub Ordered : StrMap V → Type 0
  Ordered [] = Unit
  Ordered ((k, v) ∷ m) = All (λ (j, w). str_lt k j ≡ true) m × Ordered m

  pub find-nil : (k : Str) → find {V = V} [] k ≡ none
  unfolding find
  find-nil k = refl

  pub find-put :
      (k : Str) (v : V) (m : StrMap V) (j : Str)
      → find (put k v m) j ≡ (if str_eq j k then some v else find m j)
  unfolding find put
  find-put k v [] j = refl
  find-put k v ((i, w) ∷ m) j = elim (Bool-cases (str_eq k i)) [
    | inl hit ↦ let e : k ≡ i = (str_eq_iff k i).0 hit in rw (hit, ← e) (ground arith)
    | inr miss ↦ rw miss (elim (Bool-cases (str_lt k i)) [
      | inl less ↦ rw less refl
      | inr more ↦
          rw (more, find-put k v m j)
            (elim (Bool-cases (str_eq j i)) [
              | inl here ↦
                  let e : j ≡ i = (str_eq_iff j i).0 here in
                  let other : str_eq j k ≡ false = differs k i j miss e in rw (here, other) refl
              | inr there ↦ rw there refl
            ])
    ])
  ]

  pub find-erase :
      (k : Str) (m : StrMap V) (j : Str)
      → find (erase k m) j ≡ (if str_eq j k then none else find m j)
  unfolding find erase
  find-erase k [] j = ground arith
  find-erase k ((i, w) ∷ m) j = elim (Bool-cases (str_eq k i)) [
    | inl hit ↦
        let e : k ≡ i = (str_eq_iff k i).0 hit in rw (hit, ← e, find-erase k m j) (ground arith)
    | inr miss ↦
        rw (miss, find-erase k m j)
          (elim (Bool-cases (str_eq j i)) [
            | inl here ↦
                let e : j ≡ i = (str_eq_iff j i).0 here in
                let other : str_eq j k ≡ false = differs k i j miss e in rw (here, other) refl
            | inr there ↦ rw there refl
          ])
  ]

  put-later :
      (l k : Str) (v : V) (m : StrMap V)
      → str_lt l k ≡ true
      → All (λ (j, w). str_lt l j ≡ true) m
      → All (λ (j, w). str_lt l j ≡ true) (put k v m)
  unfolding put
  put-later l k v [] h a = (h, tt)
  put-later l k v ((j, w) ∷ m) h a = elim (Bool-cases (str_eq k j)) [
    | inl hit ↦ rw hit (h, a.1)
    | inr miss ↦ rw miss (elim (Bool-cases (str_lt k j)) [
      | inl less ↦ rw less (h, a)
      | inr more ↦ rw more (a.0, put-later l k v m h a.1)
    ])
  ]

  All-later :
      (k l : Str) (m : StrMap V)
      → str_lt k l ≡ true
      → All (λ (j, w). str_lt l j ≡ true) m
      → All (λ (j, w). str_lt k j ≡ true) m
  All-later k l [] h a = tt
  All-later k l ((j, w) ∷ m) h a = (str_lt_trans k l j h a.0, All-later k l m h a.1)

  pub put-Ordered : (k : Str) (v : V) (m : StrMap V) → Ordered m → Ordered (put k v m)
  unfolding put
  put-Ordered k v [] o = (tt, tt)
  put-Ordered k v ((j, w) ∷ m) o = elim (Bool-cases (str_eq k j)) [
    | inl hit ↦
        let e : j ≡ k = sym ((str_eq_iff k j).0 hit) in
        rw hit (subst (λ i. All (λ (l, u). str_lt i l ≡ true) m) e o.0, o.1)
    | inr miss ↦ rw miss (elim (Bool-cases (str_lt k j)) [
      | inl less ↦ rw less ((less, All-later k j m less o.0), o)
      | inr more ↦
          rw more (put-later j k v m (str_lt_total k j miss more) o.0, put-Ordered k v m o.1)
    ])
  ]

  -- A name behind all others is put at the end.
  pub put_last :
      (k : Str) (v : V) (m : StrMap V)
      → All (λ (j, w). str_lt j k ≡ true) m
      → put k v m ≡ m ++ (k, v) ∷ []
  unfolding put
  put_last k v [] a = refl
  put_last k v ((j, w) ∷ m) a =
      let (other, more) = str_lt→later j k a.0 in rw (other, more, put_last k v m a.1) refl

  -- In an ordered map the names before an entry are less than its name.
  pub Ordered-before :
      (m : StrMap V) (k : Str) (v : V) (n : StrMap V)
      → Ordered (m ++ (k, v) ∷ n)
      → All (λ (j, w). str_lt j k ≡ true) m
  Ordered-before [] k v n o = tt
  Ordered-before ((j, w) ∷ m) k v n o = (All-middle j m o.0, Ordered-before m k v n o.1)
    where
      All-middle :
          (j : Str) (m : StrMap V)
          → All (λ (i, w). str_lt j i ≡ true) (m ++ (k, v) ∷ n)
          → str_lt j k ≡ true
      All-middle j [] a = a.0
      All-middle j (e ∷ m) a = All-middle j m a.1

  pub put-All :
      (P : Str → V → Type 0) (k : Str) (v : V) (m : StrMap V)
      → P k v
      → All (λ (j, w). P j w) m
      → All (λ (j, w). P j w) (put k v m)
  unfolding put
  put-All P k v [] p a = (p, tt)
  put-All P k v ((j, w) ∷ m) p a = elim (Bool-cases (str_eq k j)) [
    | inl hit ↦ rw hit (p, a.1)
    | inr miss ↦ rw miss (elim (Bool-cases (str_lt k j)) [
      | inl less ↦ rw less (p, a)
      | inr more ↦ rw more (a.0, put-All P k v m p a.1)
    ])
  ]
