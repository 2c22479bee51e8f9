-- ===== src/Leafset/Side.antt =====
-- One side of the leafset (lib/chimera/leafset.cpp), by the rank of its hosts: what `add` leaves of
-- a side is the first four of the ordered insertion.
use arbore_experiment.Base.{
  ℕ, zero, suc, ◌+◌, ◌≤◌, ◌<◌, ◌≡◌, refl, sym, ap, ◌∙◌, ◌↔◌, inl, inr, Bool, true, some, List, [],
  ◌∷◌, ◌++◌, arith, ltb, ◌==◌, if◌then◌else◌, length, take, length-append, take_of_length-le,
  length-take-le, Bool-cases, Option-cases,
}
use arbore_experiment.Host.{Host}
use arbore_experiment.Leafset.{
  Scan, found, inserted, past_end, behind, pop_back, scan, after_scan, add_side, remove_side,
}

pop_back-take : (n : ℕ) (l : List Host) → length l ≡ suc n → pop_back l ≡ take n l
unfolding pop_back
pop_back-take n [] e = absurd (omega arith)
pop_back-take zero (h ∷ []) e = refl
pop_back-take zero (h ∷ h' ∷ hs) e = absurd (omega arith)
pop_back-take (suc n) (h ∷ []) e = absurd (omega arith)
pop_back-take (suc n) (h ∷ h' ∷ hs) e = ap (◌∷◌ h) (pop_back-take n (h' ∷ hs) (omega arith))

take-append : (n : ℕ) (l r : List Host) → length l ≡ n → take n (l ++ r) ≡ l
take-append zero [] r e = refl
take-append zero (h ∷ hs) r e = absurd (omega arith)
take-append (suc n) [] r e = absurd (omega arith)
take-append (suc n) (h ∷ hs) r e = ap (◌∷◌ h) (take-append n hs r (omega arith))

module _ (rank : Host → ℕ) where
  -- Ranks rise along the list, above a bound.
  abbrev pub Ascending : ℕ → List Host → Type 0
  Ascending lo [] = Unit {0}
  Ascending lo (h ∷ hs) = (lo < rank h) × Ascending (rank h) hs

  -- Insertion by rank that keeps the host that has the rank already.
  unfoldable pub insert : Host → List Host → List Host
  insert e [] = e ∷ []
  insert e (h ∷ hs) =
      if rank e == rank h
      then h ∷ hs
      else if ltb (rank e) (rank h)
      then e ∷ h ∷ hs
      else h ∷ insert e hs

  length-insert : (e : Host) (l : List Host) → length (insert e l) ≤ length l + 1
  unfolding insert
  length-insert e [] = omega arith
  length-insert e (h ∷ hs) = ground (arith, length-insert e hs)

  insert-Ascending :
      (lo : ℕ) (e : Host) (l : List Host) → lo < rank e → Ascending lo l → Ascending lo (insert e l)
  unfolding insert
  insert-Ascending lo e [] h a = (h, tt)
  insert-Ascending lo e (x ∷ xs) h a = ground (arith, insert-Ascending (rank x) e xs)

  insert_same : (e h : Host) (hs : List Host) → rank e ≡ rank h → insert e (h ∷ hs) ≡ h ∷ hs
  unfolding insert
  insert_same e h hs eq = ground arith

  insert_before : (e h : Host) (hs : List Host) → rank e < rank h → insert e (h ∷ hs) ≡ e ∷ h ∷ hs
  unfolding insert
  insert_before e h hs lt = ground arith

  insert_behind :
      (e h : Host) (hs : List Host) → rank h < rank e → insert e (h ∷ hs) ≡ h ∷ insert e hs
  unfolding insert
  insert_behind e h hs gt = ground arith

  take-take_suc : (n : ℕ) (h : Host) (l : List Host) → take n (h ∷ take n l) ≡ take n (h ∷ l)
  take-take_suc zero h l = refl
  take-take_suc (suc n) h [] = refl
  take-take_suc (suc n) h (x ∷ xs) = ap (◌∷◌ h) (take-take_suc n x xs)

  take-take : (n : ℕ) (l : List Host) → take n (take n l) ≡ take n l
  take-take zero l = refl
  take-take (suc n) [] = refl
  take-take (suc n) (x ∷ xs) = ap (◌∷◌ x) (take-take n xs)

  -- What was cut off does not matter to the first n.
  pub take-insert-take :
      (n : ℕ) (e : Host) (l : List Host) → take n (insert e (take n l)) ≡ take n (insert e l)
  unfolding insert
  take-insert-take zero e l = refl
  take-insert-take (suc n) e [] = refl
  take-insert-take (suc n) e (h ∷ hs) = elim (Bool-cases (rank e == rank h)) [
    | inl there ↦ rw there (ap (◌∷◌ h) (take-take n hs))
    | inr new ↦ rw new (elim (Bool-cases (ltb (rank e) (rank h))) [
      | inl here ↦ rw here (ap (◌∷◌ e) (take-take_suc n h hs))
      | inr later ↦ rw later (ap (◌∷◌ h) (take-insert-take n e hs))
    ])
  ]

  take-Ascending : (n lo : ℕ) (l : List Host) → Ascending lo l → Ascending lo (take n l)
  take-Ascending zero lo l a = tt
  take-Ascending (suc n) lo [] a = tt
  take-Ascending (suc n) lo (h ∷ hs) a = (a.0, take-Ascending n (rank h) hs a.1)

  -- The side after an entry of which the rank is above the bound, or not.
  pub kept_side :
      (lo : ℕ) (e : Host) (l : List Host)
      → Ascending lo l
      → length l ≤ 4
      → let side = if ltb lo (rank e) then take 4 (insert e l) else l in
        Ascending lo side × (length side ≤ 4)
  kept_side lo e l a n = ground (
    arith,
    take-Ascending 4 lo (insert e l),
    insert-Ascending lo e l,
    length-take-le 4 (insert e l),
  )

  Ascending-mono : (lo lo' : ℕ) (l : List Host) → lo ≤ lo' → Ascending lo' l → Ascending lo l
  Ascending-mono lo lo' [] h a = tt
  Ascending-mono lo lo' (x ∷ xs) h a = (omega arith, a.1)

  pub remove_side-Ascending :
      (same : Host → Host → Bool) (lo : ℕ) (e : Host) (l r : List Host)
      → remove_side same e l ≡ some r
      → Ascending lo l
      → Ascending lo r × (length r ≤ length l)
  unfolding remove_side
  remove_side-Ascending same lo e [] r h a = absurd (ground arith)
  remove_side-Ascending same lo e (x ∷ xs) r h a = elim (Bool-cases (same e x)) [
    | inl hit ↦
        let is : xs ≡ r = ground arith in
        rw (← is) (Ascending-mono lo (rank x) xs (omega arith) a.1, omega arith)
    | inr miss ↦ elim (Option-cases (remove_side same e xs)) [
      | inl gone ↦ absurd (ground arith)
      | inr (r', left) ↦
          let is : x ∷ r' ≡ r = ground arith in
          let ih = remove_side-Ascending same (rank x) e xs r' left a.1 in
          rw (← is) ((a.0, ih.0), omega (arith, ih.1))
    ]
  ]

-- The scan of a side by tests that compare ranks.
module _ (rank : Host → ℕ) (same_key before : Host → Host → Bool)
    (same_iff : (a b : Host) → (same_key a b ≡ true) ↔ (rank a ≡ rank b))
    (before_iff : (a b : Host) → (before a b ≡ true) ↔ (rank a < rank b)) where
  -- What the scan says of the ordered insertion.
  abbrev Scans : Host → List Host → Scan → Type 0
  Scans e l found = insert rank e l ≡ l
  Scans e l (inserted r) = (insert rank e l ≡ r) × (length r ≡ length l + 1)
  Scans e l past_end = insert rank e l ≡ l ++ e ∷ []

  Scans-behind :
      (e h : Host) (hs : List Host) (s : Scan)
      → insert rank e (h ∷ hs) ≡ h ∷ insert rank e hs
      → Scans e hs s
      → Scans e (h ∷ hs) (behind h s)
  Scans-behind e h hs found step i = step ∙ ap (◌∷◌ h) i
  Scans-behind e h hs (inserted r) step i = (step ∙ ap (◌∷◌ h) i.0, omega (arith, i.1))
  Scans-behind e h hs past_end step i = step ∙ ap (◌∷◌ h) i

  scan-Scans : (e : Host) (l : List Host) → Scans e l (scan same_key before e l)
  unfolding scan
  scan-Scans e [] = unfold insert in refl
  scan-Scans e (h ∷ hs) = elim (Bool-cases (same_key e h)) [
    | inl there ↦ rw there (insert_same rank e h hs ((same_iff e h).0 there))
    | inr new ↦ elim (Bool-cases (before e h)) [
      | inl here ↦ rw (new, here) (insert_before rank e h hs ((before_iff e h).0 here), omega arith)
      | inr later ↦
          rw (new, later)
            (Scans-behind e h hs (scan same_key before e hs)
              (insert_behind rank e h hs (ground (arith, same_iff e h, before_iff e h)))
              (scan-Scans e hs))
    ]
  ]

  after_scan-insert :
      (e : Host) (l : List Host) (s : Scan)
      → length l ≤ 4
      → Scans e l s
      → (after_scan e l s).0 ≡ take 4 (insert rank e l)
  unfolding after_scan
  after_scan-insert e l found h i = rw i (sym (take_of_length-le 4 l h))
  after_scan-insert e l (inserted r) h i =
      rw i.0 (ground (arith, pop_back-take 4 r, take_of_length-le 4 r))
  after_scan-insert e l past_end h i = rw i (
      ground (
        arith,
        take-append 4 l (e ∷ []),
        take_of_length-le 4 (l ++ e ∷ []),
        length-append l (e ∷ []),
      ))

  -- A side that is not too long becomes the first four of the ordered insertion.
  pub add_side-insert :
      (e : Host) (l : List Host)
      → length l ≤ 4
      → (add_side same_key before e l).0 ≡ take 4 (insert rank e l)
  unfolding add_side
  add_side-insert e l h = after_scan-insert e l (scan same_key before e l) h (scan-Scans e l)
