-- ===== src/Config/Writes.antt =====
-- What the operations on sections in lib/util/pf_config.cpp leave of the values of items.
use arbore_experiment.Base.{
  ℕ, zero, suc, ◌+◌, ◌≡◌, refl, subst, Bool, false, Option, none, some, List, [], ◌∷◌, ◌==◌, arith,
  inl, inr, Bool-cases,
}
use arbore_experiment.Netutil.{Str}
use arbore_experiment.Tree.{Access, done, bad_pointer, unbounded, ◌>>=◌, pointed}
use arbore_experiment.Config.{Section, Config, insert_section, write}
use arbore_experiment.Config.Items.{AllFilled, clone_items-AllFilled}
use arbore_experiment.Config.Load.{section_at, copied, copy_each, copy_section, enter}

-- What holds of the result, if there is one.
pub data Holds {ℓ} {A : Type ℓ} (P : A → Type 0) : Access A → Type ℓ where
  holds : {a : A} → P a → Holds P (done a)
  holds_bad : Holds P bad_pointer
  holds_unbounded : Holds P unbounded

pub bind-Holds {ℓ κ} :
    {A : Type ℓ} {B : Type κ} {P : A → Type 0} {Q : B → Type 0} (r : Access A) (f : A → Access B)
    → Holds P r
    → ((a : A) → P a → Holds Q (f a))
    → Holds Q (r >>= f)
bind-Holds (done a) f (holds p) next = next a p
bind-Holds bad_pointer f h next = holds_bad
bind-Holds unbounded f h next = holds_unbounded

pub any-Holds {ℓ} :
    {A : Type ℓ} {B : Type ℓ} {Q : B → Type 0} (r : Access A) (f : A → Access B)
    → ((a : A) → Holds Q (f a))
    → Holds Q (r >>= f)
any-Holds (done a) f next = next a
any-Holds bad_pointer f next = holds_bad
any-Holds unbounded f next = holds_unbounded

-- Each item of each section that was found has a value of its kind.
unfoldable pub Sound : Config → Type 0
Sound c = (i : ℕ) (s : Section) → c.cells i ≡ some s → AllFilled s.items

-- The same, unless there was an error.
abbrev pub SoundIf : Bool → Config → Type 0
SoundIf error c = error ≡ false → Sound c

pub section_at-Holds :
    (b : Bool) (c : Config) (i : ℕ)
    → SoundIf b c
    → Holds (λ s. b ≡ false → AllFilled s.items) (section_at c i)
unfolding Sound section_at pointed
section_at-Holds b c i h = look (c.cells i) refl
  where
    look :
        (o : Option Section)
        → c.cells i ≡ o
        → Holds (λ s. b ≡ false → AllFilled s.items) (section_at c i)
    look none e = rw e holds_bad
    look (some s) e = rw e (holds (λ ok. h ok i s e))

same_some {ℓ} : {A : Type ℓ} (a b : A) → some a ≡ some b → a ≡ b
same_some a b h = cc

pub write-Sound :
    (c : Config) (i : ℕ) (s : Section) → Sound c → AllFilled s.items → Sound (write c i s)
unfolding Sound write
write-Sound c i s h a j t at = elim (Bool-cases (j == i)) [
  | inl same ↦
      let new = same_some s t (ground (arith, at, same)) in
      subst (λ (x : Section). AllFilled x.items) new a
  | inr other ↦ h j t (ground (arith, at, other))
]

-- A copy has no item that was found.
copy_each-Sound :
    (b : Bool) (copy : Config → ℕ → Access (Config × ℕ))
    → ((c : Config) (i : ℕ) → SoundIf b c → Holds (λ (c', n). SoundIf b c') (copy c i))
    → (c : Config) (ss subs : List (Str × ℕ)) → SoundIf b c
    → Holds (λ (c', subs'). SoundIf b c') (copy_each copy c ss subs)
unfolding copy_each
copy_each-Sound b copy sound c [] subs h = holds h
copy_each-Sound b copy sound c ((l, i) ∷ ss) subs h =
    bind-Holds (copy c i) _ (sound c i h)
      (λ (c', n) h'. copy_each-Sound b copy sound c' ss (insert_section l n subs) h')

made-Sound :
    (c : Config) (n next : ℕ) (s : Section)
    → Sound c
    → AllFilled s.items
    → Sound (record (write c n s) { next = next })
unfolding Sound
made-Sound c n next s h a = write-Sound c n s h a

pub copy_section-Sound :
    (f : ℕ) (b : Bool) (c : Config) (i : ℕ)
    → SoundIf b c
    → Holds (λ (c', n). SoundIf b c') (copy_section f c i)
unfolding copy_section copied
copy_section-Sound zero b c i h = holds_unbounded
copy_section-Sound (suc f) b c i h =
    bind-Holds (section_at c i) _ (section_at-Holds b c i h) (λ s a.
      bind-Holds (copy_each (λ c' j. copy_section f c' j) c s.sections []) _
        (copy_each-Sound b (λ c' j. copy_section f c' j) (λ c' j h'. copy_section-Sound f b c' j h')
          c s.sections [] h)
        (λ (c', subs) h'. holds (λ ok.
          made-Sound c' c'.next (c'.next + 1) (copied s subs) (h' ok)
            (clone_items-AllFilled s.items))))

pub enter-Sound :
    (b : Bool) (c : Config) (o : Option ℕ) (l : Str) (i : ℕ)
    → SoundIf b c
    → Holds (SoundIf b) (enter c o l i)
unfolding enter Sound
enter-Sound b c none l i h = holds h
enter-Sound b c (some p) l i h = bind-Holds (section_at c p) _ (section_at-Holds b c p h) (λ s a.
    holds
      (λ ok. write-Sound c p (record s { sections = insert_section l i s.sections }) (h ok) (a ok)))
