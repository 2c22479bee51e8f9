-- ===== src/Tree/Invariant/Walks.antt =====
-- Path2File of lib/files/cache_base.cpp ends and keeps the invariant of the tree.
use arbore_experiment.Base.{
  ℕ, zero, suc, ◌<◌, ◌≡◌, refl, Bool, none, some, [], ◌∷◌, length, arith, inl, inr,
}
use arbore_experiment.Netutil.{Str}
use arbore_experiment.Tools.{stringtok}
use arbore_experiment.Tools.Tokens.{stringtok_cases}
use arbore_experiment.Tree.{Memory, done}
use arbore_experiment.Tree.Paths.{Flags, Answer, go_on, return, round, after_round, walk, path2file}
use arbore_experiment.Tree.Invariant.{IsTree, IsDir}
use arbore_experiment.Tree.Invariant.Changes.{Does, does, bind-Does, weaken-Does, Good, Good-trans}
use arbore_experiment.Tree.Invariant.Rounds.{IsAnswer, RoundGood, stays, round-Good}

later_answer : (m m' : Memory) (a : Answer) → Good m m' → IsAnswer m' a → IsAnswer m a
later_answer m m' a g h = record { good = Good-trans m m' a.memory g h.good; points = h.points }

pub walk-no_token :
    (f : ℕ) (fl : Flags) (wants : Bool) (m : Memory) (p : Str × Str) (dir : ℕ)
    → p.0 ≡ []
    → walk f fl wants m p dir ≡ done (record { memory = m; file = some dir; filename = none })
unfolding walk
walk-no_token f fl wants m p dir e = rw e refl

walk_end-IsAnswer :
    (f : ℕ) (fl : Flags) (wants : Bool) (m : Memory) (p : Str × Str) (dir : ℕ)
    → p.0 ≡ []
    → IsTree m
    → IsDir m dir
    → Does (IsAnswer m) (walk f fl wants m p dir)
walk_end-IsAnswer f fl wants m p dir e t d =
    rw (walk-no_token f fl wants m p dir e)
      (does (record { good = stays m t; points = (d.entry, d.there) }))

walk-IsAnswer :
    (f : ℕ) (fl : Flags) (wants : Bool) (m : Memory) (name rest : Str) (dir : ℕ)
    → length rest < f
    → IsTree m
    → IsDir m dir
    → Does (IsAnswer m) (walk f fl wants m (name, rest) dir)
unfolding walk after_round
walk-IsAnswer f fl wants m [] rest dir h t d =
    does (record { good = stays m t; points = (d.entry, d.there) })
walk-IsAnswer zero fl wants m (c ∷ cs) rest dir h t d = absurd (omega arith)
walk-IsAnswer (suc f) fl wants m (c ∷ cs) rest dir h t d =
    bind-Does (round fl wants m (c ∷ cs) rest dir) _ (round-Good fl wants m (c ∷ cs) rest dir t d)
      (λ r good.
        elim r
            as (λ r.
              RoundGood m r
              → Does (IsAnswer m) (
                  after_round (λ m' dir'. walk f fl wants m' (stringtok (b'/' ∷ []) rest) dir')
                    r)) [
                      | return a ↦ λ good. does good
                      | go_on m' dir' ↦ λ (g, d').
                          let p = stringtok (b'/' ∷ []) rest in
                          weaken-Does (walk f fl wants m' p dir')
                            (elim (stringtok_cases (b'/' ∷ []) rest) [
                              | inl none_left ↦
                                  walk_end-IsAnswer f fl wants m' p dir' none_left g.tree d'
                              | inr less ↦
                                  walk-IsAnswer f fl wants m' p.0 p.1 dir' (omega arith) g.tree d'
                            ])
                            (λ a. later_answer m m' a g)
                    ]
          good)

-- In a well-formed tree Path2File ends for every path and all flags, goes through no bad pointer,
-- leaves a well-formed tree with all objects of the one before, under their names and parents, and
-- answers with null or with an object of it.
pub path2file-IsAnswer :
    (fl : Flags) (wants : Bool) (m : Memory) (root : ℕ) (path : Str)
    → IsTree m
    → IsDir m root
    → Does (IsAnswer m) (path2file fl wants m root path)
unfolding path2file
path2file-IsAnswer fl wants m root path t d =
    let p = stringtok (b'/' ∷ []) path in
    elim (stringtok_cases (b'/' ∷ []) path) [
      | inl none_left ↦ walk_end-IsAnswer (suc (length path)) fl wants m p root none_left t d
      | inr less ↦ walk-IsAnswer (suc (length path)) fl wants m p.0 p.1 root (omega arith) t d
    ]
