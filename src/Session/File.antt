-- ===== src/Session/File.antt =====
-- The file that Save of lib/util/session_config.cpp writes, and what Load reads of it.
use mathlib.Core.List.{append_assoc, append-nil}
use arbore_experiment.Base.{
  ℕ, zero, suc, ◌/◌, ltb, ◌≡◌, ◌≢◌, refl, sym, ap, subst, ◌∙◌, true, false, Bool, Option, none,
  some, List, [], ◌∷◌, ◌++◌, arith, All, ◌==◌, Bool-cases, inl, inr,
}
use arbore_experiment.Netutil.{Str}
use arbore_experiment.Dht.{str_lt}
use arbore_experiment.StrMap.{StrMap}
use arbore_experiment.StrMap.Order.{Ordered, put-Ordered, put-All, put_last, Ordered-before}
use arbore_experiment.Session.{
  digits_of, to_decimal, SessionConfig, new_config, set_text, set_uint32, before_equal, split_equal,
  set_split, parse, lines_of, load_line, load_lines, save_text, save_named, save, load_text, load,
}

-- No character of the text is `c`.
abbrev pub Lacks : ℕ → Str → Type 0
Lacks c s = All (λ b. b ≢ c) s

-- An option that the format of the file can keep: no newline, no `=` in the name, and no name
-- that begins like a comment.
pub record Plain (k v : Str) : Type 0 where
  pub name_line : Lacks b'\n' k
  pub name_equal : Lacks b'=' k
  pub name_mark : (cs : Str) → k ≢ b'#' ∷ cs
  pub value_line : Lacks b'\n' v

split_equal-line : (k v : Str) → Lacks b'=' k → split_equal (k ++ b'=' ∷ v) ≡ some (k, v)
unfolding split_equal before_equal
split_equal-line [] v h = refl
split_equal-line (c ∷ cs) v h = rw (split_equal-line cs v h.1) (ground (arith, h.0))

lines_of-line :
    (line s rest : Str)
    → Lacks b'\n' s
    → lines_of line (s ++ b'\n' ∷ rest) ≡ (line ++ s) ∷ lines_of [] rest
unfolding lines_of
lines_of-line line [] rest h = rw (append-nil line) refl
lines_of-line line (c ∷ cs) rest h =
    let e : (c == b'\n') ≡ false = ground (arith, h.0) in
    rw e (lines_of-line (line ++ c ∷ []) cs rest h.1 ∙ rw (append_assoc line (c ∷ []) cs) refl)

load_line-Plain :
    (k v : Str) (c : SessionConfig) → Plain k v → load_line (k ++ b'=' ∷ v) c ≡ set_text k v c
unfolding load_line parse
load_line-Plain [] v c p = rw (split_equal-line [] v p.name_equal) (unfold set_split in refl)
load_line-Plain (x ∷ xs) v c p =
    let mark : (x == b'#') ≡ false =
      ground (arith, λ (e : x ≡ b'#'). p.name_mark xs (ap (λ y. y ∷ xs) e)) in
    rw (mark, split_equal-line (x ∷ xs) v p.name_equal) (unfold set_split in refl)

pub Lacks-append : (c : ℕ) (s t : Str) → Lacks c s → Lacks c t → Lacks c (s ++ t)
Lacks-append c [] t h k = k
Lacks-append c (x ∷ xs) t h k = (h.0, Lacks-append c xs t h.1 k)

-- A line with a name behind all others adds its option at the end.
load_line_last :
    (k v : Str) (c : SessionConfig)
    → Plain k v
    → All (λ (j, w). str_lt j k ≡ true) c.list
    → load_line (k ++ b'=' ∷ v) c ≡ record c { list = c.list ++ (k, v) ∷ [] }
unfolding set_text
load_line_last k v c p a =
    load_line-Plain k v c p ∙ ap (λ l. record c { list = l }) (put_last k v c.list a)

load_lines-entry :
    (k v : Str) (m : StrMap Str) (c : SessionConfig)
    → Plain k v
    → load_lines (lines_of [] (save_text ((k, v) ∷ m))) c
      ≡ load_lines (lines_of [] (save_text m)) (load_line (k ++ b'=' ∷ v) c)
unfolding save_text load_lines
load_lines-entry k v m c p =
    let no_break : Lacks b'\n' (k ++ b'=' ∷ v) =
      Lacks-append b'\n' k (b'=' ∷ v) p.name_line (λ e. absurd (omega arith), p.value_line) in
    ap (λ s. load_lines (lines_of [] s) c) (sym (append_assoc k (b'=' ∷ v) (b'\n' ∷ save_text m)))
    ∙ ap (λ ls. load_lines ls c) (lines_of-line [] (k ++ b'=' ∷ v) (save_text m) no_break)

load_lines-nil : (c : SessionConfig) → load_lines (lines_of [] (save_text [])) c ≡ c
unfolding load_lines lines_of save_text
load_lines-nil c = refl

load_lines-save_text :
    (m : StrMap Str) (c : SessionConfig)
    → Ordered (c.list ++ m)
    → All (λ (k, v). Plain k v) m
    → load_lines (lines_of [] (save_text m)) c ≡ record c { list = c.list ++ m }
load_lines-save_text [] c o h =
    load_lines-nil c ∙ ap (λ l. record c { list = l }) (sym (append-nil c.list))
load_lines-save_text ((k, v) ∷ m) c o h =
    let next : (c.list ++ (k, v) ∷ []) ++ m ≡ c.list ++ (k, v) ∷ m =
      append_assoc c.list ((k, v) ∷ []) m in
    let c' = record c { list = c.list ++ (k, v) ∷ [] } in
    load_lines-entry k v m c h.0
    ∙ ap (load_lines (lines_of [] (save_text m)))
        (load_line_last k v c h.0 (Ordered-before c.list k v m o))
    ∙ load_lines-save_text m c' (subst Ordered (sym next) o) h.1
    ∙ ap (λ l. record c { list = l }) next

-- A configuration that Save keeps: its options are in order, and the format can hold each.
pub record IsConfig (c : SessionConfig) : Type 0 where
  pub ordered : Ordered c.list
  pub plain : All (λ (k, v). Plain k v) c.list

digits_of-Lacks : (f n : ℕ) → Lacks b'\n' (digits_of f n)
unfolding digits_of
digits_of-Lacks zero n = tt
digits_of-Lacks (suc f) n = elim (Bool-cases (ltb n 10)) [
  | inl small ↦ rw small (λ e. absurd (omega arith), tt)
  | inr large ↦ rw large (
      Lacks-append b'\n' (digits_of f (n / 10)) _ (digits_of-Lacks f (n / 10))
        (λ e. absurd (omega arith), tt))
]

pub set_uint32-IsConfig :
    (k : Str) (n : ℕ) (c : SessionConfig) → Plain k [] → IsConfig c → IsConfig (set_uint32 k n c)
unfolding set_uint32 to_decimal
set_uint32-IsConfig k n c p h =
    let q : Plain k (digits_of 10 n) = record {
      name_line = p.name_line;
      name_equal = p.name_equal;
      name_mark = p.name_mark;
      value_line = digits_of-Lacks 10 n;
    } in
    record {
      ordered = put-Ordered k (digits_of 10 n) c.list h.ordered;
      plain = put-All Plain k (digits_of 10 n) c.list q h.plain;
    }

-- If a configuration has a file name, its options are in order, their names have no newline and no
-- `=` and begin with no `#`, and their values have no newline, then Load into a new configuration
-- reads what Save wrote as the same options.
pub load-save :
    (c : SessionConfig) (x : ℕ) (xs : Str) (opens : Bool) (name : Str)
    → c.filename ≡ x ∷ xs
    → IsConfig c
    → (load opens (save true c).1 name new_config).0 ≡ record { filename = name; list = c.list }
unfolding load save save_named load_text
load-save c x xs opens name named h =
    rw named (load_lines-save_text c.list (record new_config { filename = name }) h.ordered h.plain)

set_split-Ordered :
    (o : Option (Str × Str)) (c : SessionConfig) → Ordered c.list → Ordered (set_split o c).list
unfolding set_split set_text
set_split-Ordered none c o = o
set_split-Ordered (some (k, v)) c o = put-Ordered k v c.list o

load_line-Ordered :
    (line : Str) (c : SessionConfig) → Ordered c.list → Ordered (load_line line c).list
unfolding load_line parse
load_line-Ordered [] c o = o
load_line-Ordered (x ∷ xs) c o = elim (Bool-cases (x == b'#')) [
  | inl mark ↦ rw mark o
  | inr other ↦ rw other (set_split-Ordered (split_equal (x ∷ xs)) c o)
]

-- Any text that is loaded leaves the map in order.
pub load_lines-Ordered :
    (lines : List Str) (c : SessionConfig) → Ordered c.list → Ordered (load_lines lines c).list
unfolding load_lines
load_lines-Ordered [] c o = o
load_lines-Ordered (l ∷ ls) c o = load_lines-Ordered ls (load_line l c) (load_line-Ordered l c o)
