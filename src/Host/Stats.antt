-- ===== src/Host/Stats.antt =====
-- The success statistics of lib/net/host.cpp: UpdateStat keeps a window of the last results.
use mathlib.Core.List.{append_assoc, append-nil}
use arbore_experiment.Base.{
  ℕ, zero, suc, ◌+◌, ◌%◌, ◌≤◌, ◌<◌, ◌≡◌, refl, ap, sym, ◌∙◌, inl, inr, List, [], ◌∷◌, ◌++◌, arith,
  length, set, take, drop, ◌==◌, Bool-cases, length-set, take_of_length-le,
}
use arbore_experiment.Address.{Addr}
use arbore_experiment.Host.{HostInfo, new_host, total, update_stat_info}

-- Every result is one or none.
abbrev IsWindow : List ℕ → Type 0
IsWindow [] = Unit
IsWindow (s ∷ ss) = (s ≤ 1) × IsWindow ss

pub record IsStat (h : HostInfo) : Type 0 where
  pub size : length h.success_win ≡ 20
  pub ones : IsWindow h.success_win
  pub avg : h.success_avg ≡ total h.success_win

-- The window in the order of the calls, the oldest result first: the ring starts at the index.
abbrev pub ordered : HostInfo → List ℕ
ordered h =
    drop (h.success_win_index % 20) h.success_win ++ take (h.success_win_index % 20) h.success_win

pub new_host-IsStat : (k : Addr) → IsStat (new_host k)
unfolding new_host total
new_host-IsStat k = record { size = refl; ones = omega arith; avg = refl }

set-IsWindow : (l : List ℕ) (i x : ℕ) → x ≤ 1 → IsWindow l → IsWindow (set l i x)
set-IsWindow [] i x h w = w
set-IsWindow (y ∷ ys) zero x h w = (h, w.1)
set-IsWindow (y ∷ ys) (suc i) x h w = (w.0, set-IsWindow ys i x h w.1)

IsWindow-le : (l : List ℕ) → IsWindow l → total l ≤ length l
unfolding total
IsWindow-le [] w = omega arith
IsWindow-le (x ∷ xs) w = omega (arith, w.0, IsWindow-le xs w.1)

-- UpdateStat with a result of zero or one keeps the window at 20 results of zero or one, with the
-- average, in twentieths, as their sum.
pub update_stat_info-IsStat :
    (h : HostInfo) (s : ℕ) → s ≤ 1 → IsStat h → IsStat (update_stat_info h s)
unfolding update_stat_info
update_stat_info-IsStat h s le v = record {
  size = length-set h.success_win _ s ∙ v.size;
  ones = set-IsWindow h.success_win _ s le v.ones;
  avg = refl;
}

success_avg-le : (h : HostInfo) → IsStat h → h.success_avg ≤ 20
success_avg-le h v = omega (arith, IsWindow-le h.success_win v.ones, v.avg, v.size)

total-append : (a b : List ℕ) → total (a ++ b) ≡ total a + total b
unfolding total
total-append [] b = omega arith
total-append (x ∷ xs) b = omega (arith, total-append xs b)

total-split : (m : ℕ) (l : List ℕ) → total (drop m l) + total (take m l) ≡ total l
unfolding total
total-split zero l = omega arith
total-split (suc m) [] = omega arith
total-split (suc m) (x ∷ xs) = omega (arith, total-split m xs)

drop-set : (m : ℕ) (l : List ℕ) (x : ℕ) → drop (suc m) (set l m x) ≡ drop (suc m) l
drop-set m [] x = refl
drop-set zero (y ∷ ys) x = refl
drop-set (suc m) (y ∷ ys) x = drop-set m ys x

take-set :
    (m : ℕ) (l : List ℕ) (x : ℕ) → m < length l → take (suc m) (set l m x) ≡ take m l ++ x ∷ []
take-set m [] x h = absurd (omega arith)
take-set zero (y ∷ ys) x h = refl
take-set (suc m) (y ∷ ys) x h = ap (◌∷◌ y) (take-set m ys x (omega arith))

-- What is behind the first element of a rotation.
drop_one :
    (m : ℕ) (l rest : List ℕ) → m < length l → drop 1 (drop m l ++ rest) ≡ drop (suc m) l ++ rest
drop_one m [] rest h = absurd (omega arith)
drop_one zero (x ∷ xs) rest h = refl
drop_one (suc m) (x ∷ xs) rest h = drop_one m xs rest (omega arith)

drop_all : (n : ℕ) (l : List ℕ) → length l ≡ n → drop n l ≡ []
drop_all zero [] h = refl
drop_all zero (x ∷ xs) h = absurd (omega arith)
drop_all (suc n) [] h = refl
drop_all (suc n) (x ∷ xs) h = drop_all n xs (omega arith)

rotate-set :
    (m : ℕ) (l : List ℕ) (x : ℕ)
    → m < length l
    → drop (suc m) (set l m x) ++ take (suc m) (set l m x) ≡ drop 1 (drop m l ++ take m l) ++ x ∷ []
rotate-set m l x h =
    rw (drop-set m l x, take-set m l x h, drop_one m l (take m l) h)
      (sym (append_assoc (drop (suc m) l) (take m l) (x ∷ [])))

-- A full turn of the ring leaves it as it is.
rotate_full : (n : ℕ) (l : List ℕ) → length l ≡ n → l ++ [] ≡ drop n l ++ take n l
rotate_full n l e =
    append-nil l
    ∙ sym (ap (λ d. d ++ take n l) (drop_all n l e) ∙ take_of_length-le n l (omega arith))

-- If the window of a host has 20 results of zero or one and the average is their sum, then
-- UpdateStat drops the oldest result of the window, in the order of the calls, and appends the new
-- one.
pub update_stat_info-ordered :
    (h : HostInfo) (s : ℕ)
    → IsStat h
    → ordered (update_stat_info h s) ≡ drop 1 (ordered h) ++ s ∷ []
unfolding update_stat_info
update_stat_info-ordered h s v =
    let m = h.success_win_index % 20 in
    let lt : m < length h.success_win = omega (arith, v.size) in
    let turned = rotate-set m h.success_win s lt in
    elim (Bool-cases (m == 19)) [
      | inl end ↦
          let e : suc h.success_win_index % 20 ≡ 0 = ground arith in
          let e' : 20 ≡ suc m = ground arith in
          let full =
            rotate_full 20 (set h.success_win m s) (length-set h.success_win m s ∙ v.size) in
          rw e (
            full
            ∙ ap (λ n. drop n (set h.success_win m s) ++ take n (set h.success_win m s)) e'
            ∙ turned)
      | inr inside ↦ let e : suc h.success_win_index % 20 ≡ suc m = ground arith in rw e turned
    ]

success_avg-ordered : (h : HostInfo) → IsStat h → h.success_avg ≡ total (ordered h)
success_avg-ordered h v =
    let m = h.success_win_index % 20 in
    v.avg
    ∙ sym (total-split m h.success_win)
    ∙ sym (total-append (drop m h.success_win) (take m h.success_win))
