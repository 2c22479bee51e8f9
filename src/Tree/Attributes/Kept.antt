-- ===== src/Tree/Attributes/Kept.antt =====
-- What tree_cfg keeps of the attributes of a file (lib/files/file_entry.cpp).
use arbore_experiment.Base.{
  ℕ, zero, suc, ◌%◌, ◌<◌, ◌≡◌, refl, ◌∙◌, ◌⊎◌, Bool, true, false, ◌||◌, not, Option, some, List, [],
  ◌∷◌, ◌++◌, ◌==◌, if◌then◌else◌, length, arith, inl, inr,
}
use arbore_experiment.Key.{Key, lt}
use arbore_experiment.Key.Parse.{of_str}
use arbore_experiment.Netutil.{Str}
use arbore_experiment.Dht.{insert}
use arbore_experiment.StrMap.{str_eq}
use arbore_experiment.Session.{SessionConfig, new_config, save, load, set_uint32, get_uint32}
use arbore_experiment.Session.Numbers.{get_uint32-set_uint32}
use arbore_experiment.Session.File.{
  Lacks, Plain, Lacks-append, IsConfig, set_uint32-IsConfig, load-save,
}
use arbore_experiment.Tools.{stringtok}
use arbore_experiment.Tools.Tokens.{stringtok_cases}
use arbore_experiment.Tree.{Stat, done}
use arbore_experiment.Tree.Attributes.{
  size_opt, meta_opt, pfmode_opt, uid_opt, gid_opt, mode_opt, set_if, write_attr, or_old, read_attr,
  read_sharers,
}

str_eq-append : (s a b : Str) → str_eq (s ++ a) (s ++ b) ≡ str_eq a b
unfolding str_eq
str_eq-append [] a b = refl
str_eq-append (c ∷ cs) a b = ground (arith, str_eq-append cs a b)

-- What stands under one option of a file after a statement of SetAttr about another or the same.
get-set_if :
    (name a o : Str) (c : Bool) (n : ℕ) (cfg : SessionConfig)
    → get_uint32 (set_if c (name ++ a) n cfg) (name ++ o) ≡ (
        if str_eq o a
        then (if c then some (n % 4294967296) else get_uint32 cfg (name ++ o))
        else get_uint32 cfg (name ++ o))
unfolding set_if
get-set_if name a o false n cfg = ground arith
get-set_if name a o true n cfg =
    rw
      (
        get_uint32-set_uint32 (name ++ a) (n % 4294967296) cfg (name ++ o) (omega arith),
        str_eq-append name o a,
      )
      refl

-- The configuration has the attributes of the file of this full name, as numbers of 32 bits.
pub record Recorded (cfg : SessionConfig) (name : Str) (s : Stat) : Type 0 where
  pub size : get_uint32 cfg (name ++ size_opt) ≡ some (s.size % 4294967296)
  pub meta : get_uint32 cfg (name ++ meta_opt) ≡ some (s.meta_mtime % 4294967296)
  pub pfmode : get_uint32 cfg (name ++ pfmode_opt) ≡ some (s.pf_mode % 4294967296)
  pub uid : get_uint32 cfg (name ++ uid_opt) ≡ some (s.uid % 4294967296)
  pub gid : get_uint32 cfg (name ++ gid_opt) ≡ some (s.gid % 4294967296)
  pub mode : get_uint32 cfg (name ++ mode_opt) ≡ some (s.mode % 4294967296)

-- A field that is written, or stands there and has not changed.
settled :
    (force : Bool) (a b : ℕ) (o : Option ℕ)
    → (force ≡ true) ⊎ (o ≡ some (a % 4294967296))
    → (if not (a == b) || force then some (b % 4294967296) else o) ≡ some (b % 4294967296)
settled true a b o h = ground arith
settled false a b o (inl h) = absurd (ground arith)
settled false a b o (inr h) = ground (arith, h)

field_kept :
    {cfg : SessionConfig} {name : Str} {old : Stat} (force : Bool) {P : Type 0}
    → (Recorded cfg name old → P)
    → (force ≡ true) ⊎ Recorded cfg name old
    → (force ≡ true) ⊎ P
field_kept force f (inl h) = inl h
field_kept force f (inr r) = inr (f r)

pub write_attr-Recorded :
    (force : Bool) (name : Str) (old new : Stat) (cfg : SessionConfig)
    → (force ≡ true) ⊎ Recorded cfg name old
    → Recorded (write_attr force name old new cfg) name new
unfolding write_attr str_eq
write_attr-Recorded force name old new cfg h = record {
  size = simp get-set_if (settled force old.size new.size _ (field_kept force (λ r. r.size) h));
  meta =
      simp get-set_if
        (settled force old.meta_mtime new.meta_mtime _ (field_kept force (λ r. r.meta) h));
  pfmode =
      simp get-set_if
        (settled force old.pf_mode new.pf_mode _ (field_kept force (λ r. r.pfmode) h));
  uid = simp get-set_if (settled force old.uid new.uid _ (field_kept force (λ r. r.uid) h));
  gid = simp get-set_if (settled force old.gid new.gid _ (field_kept force (λ r. r.gid) h));
  mode = simp get-set_if (settled force old.mode new.mode _ (field_kept force (λ r. r.mode) h));
}

-- LoadAttr of a file that is recorded.
abbrev pub restored : Stat → Stat → Stat
restored s t = record t {
  meta_mtime = s.meta_mtime % 4294967296;
  size = s.size % 4294967296;
  pf_mode = s.pf_mode % 4294967296;
  uid = s.uid % 4294967296;
  gid = s.gid % 4294967296;
  mode = s.mode % 4294967296;
}

read_attr-Recorded :
    (cfg : SessionConfig) (name : Str) (s t : Stat)
    → Recorded cfg name s
    → read_attr cfg name t ≡ restored s t
unfolding read_attr or_old
read_attr-Recorded cfg name s t r = rw (r.size, r.meta, r.pfmode, r.uid, r.gid, r.mode) refl

set_if-IsConfig :
    (c : Bool) (k : Str) (n : ℕ) (cfg : SessionConfig)
    → Plain k []
    → IsConfig cfg
    → IsConfig (set_if c k n cfg)
unfolding set_if
set_if-IsConfig true k n cfg p h = set_uint32-IsConfig k (n % 4294967296) cfg p h
set_if-IsConfig false k n cfg p h = h

set_if-filename :
    (c : Bool) (k : Str) (n : ℕ) (cfg : SessionConfig) → (set_if c k n cfg).filename ≡ cfg.filename
unfolding set_if set_uint32
set_if-filename true k n cfg = refl
set_if-filename false k n cfg = refl

-- The full name of a file that is not the root, without a newline or `=`.
pub record IsFullName (name : Str) : Type 0 where
  pub rest : Str
  pub rooted : name ≡ b'/' ∷ rest
  pub one_line : Lacks b'\n' name
  pub no_equal : Lacks b'=' name

option-Plain :
    (name opt : Str) → IsFullName name → Lacks b'\n' opt → Lacks b'=' opt → Plain (name ++ opt) []
option-Plain name opt h l e = record {
  name_line = Lacks-append b'\n' name opt h.one_line l;
  name_equal = Lacks-append b'=' name opt h.no_equal e;
  name_mark = λ cs. rw h.rooted (λ e. absurd (ground arith));
  value_line = tt;
}

write_attr-IsConfig :
    (force : Bool) (name : Str) (old new : Stat) (cfg : SessionConfig)
    → IsFullName name
    → IsConfig cfg
    → IsConfig (write_attr force name old new cfg)
unfolding write_attr
write_attr-IsConfig force name old new cfg h c =
    let plain =
      λ (opt : Str) (l : Lacks b'\n' opt) (e : Lacks b'=' opt). option-Plain name opt h l e in
    set_if-IsConfig _ _ _ _ (plain mode_opt (omega arith) (omega arith)) (
      set_if-IsConfig _ _ _ _ (plain gid_opt (omega arith) (omega arith)) (
        set_if-IsConfig _ _ _ _ (plain uid_opt (omega arith) (omega arith)) (
          set_if-IsConfig _ _ _ _ (plain pfmode_opt (omega arith) (omega arith)) (
            set_if-IsConfig _ _ _ _ (plain meta_opt (omega arith) (omega arith))
              (set_if-IsConfig _ _ _ _ (plain size_opt (omega arith) (omega arith)) c)))))

write_attr-filename :
    (force : Bool) (name : Str) (old new : Stat) (cfg : SessionConfig)
    → (write_attr force name old new cfg).filename ≡ cfg.filename
unfolding write_attr
write_attr-filename force name old new cfg = simp set_if-filename refl

-- If tree_cfg has a file name and can be saved, the full name of a file is not that of the root
-- and has no newline and no `=`, and SetAttr is forced or the attributes before are in tree_cfg:
-- after SetAttr, Save, and Load into a new configuration, LoadAttr gives the size, the meta time,
-- the mode bits, the user and the group that were set, modulo 2^32, and leaves the other times.
pub read_attr-restart :
    (force : Bool) (name : Str) (old new t : Stat) (cfg : SessionConfig) (x : ℕ) (xs : Str)
    (opens : Bool) (file : Str)
    → (force ≡ true) ⊎ Recorded cfg name old
    → cfg.filename ≡ x ∷ xs
    → IsConfig cfg
    → IsFullName name
    → read_attr
        (load opens (save true (write_attr force name old new cfg)).1 file new_config).0
        name
        t
      ≡ restored new t
read_attr-restart force name old new t cfg x xs opens file h named c full =
    let cfg' = write_attr force name old new cfg in
    let kept = write_attr-Recorded force name old new cfg h in
    let c' = record cfg' { filename = file } in
    let same : Recorded c' name new =
      unfold get_uint32 in
      record {
        size = kept.size;
        meta = kept.meta;
        pfmode = kept.pfmode;
        uid = kept.uid;
        gid = kept.gid;
        mode = kept.mode;
      } in
    rw
      (
        load-save cfg' x xs opens file (write_attr-filename force name old new cfg ∙ named)
            (write_attr-IsConfig force name old new cfg full c),
        read_attr-Recorded c' name new t same,
      )
      refl

-- LoadAttr ends: the loop over the sharers is given rounds enough.
Ends : ℕ → Key → List Key → Str × Str → Type 0
Ends f stale ks p = (ks' : List Key) × (read_sharers f stale ks p ≡ done ks')

read_sharers-no_token :
    (f : ℕ) (stale : Key) (ks : List Key) (p : Str × Str) → p.0 ≡ [] → Ends f stale ks p
unfolding Ends read_sharers
read_sharers-no_token f stale ks p e = (ks, rw e refl)

read_sharers-Ends :
    (f : ℕ) (stale : Key) (ks : List Key) (token text : Str)
    → length text < f
    → Ends f stale ks (token, text)
unfolding Ends read_sharers
read_sharers-Ends f stale ks [] text h = (ks, refl)
read_sharers-Ends zero stale ks (t ∷ ts) text h = absurd (omega arith)
read_sharers-Ends (suc f) stale ks (t ∷ ts) text h =
    let ks' = insert lt (of_str stale (t ∷ ts)) ks in
    let p = stringtok (b',' ∷ []) text in
    elim (stringtok_cases (b',' ∷ []) text) [
      | inl e ↦ read_sharers-no_token f stale ks' p e
      | inr less ↦ read_sharers-Ends f stale ks' p.0 p.1 (omega arith)
    ]

pub load_sharers-done :
    (stale : Key) (text : Str)
    → (ks : List Key) × (read_sharers (suc (length text)) stale [] (stringtok (b',' ∷ []) text)
        ≡ done ks)
unfolding Ends
load_sharers-done stale text =
    let p = stringtok (b',' ∷ []) text in
    elim (stringtok_cases (b',' ∷ []) text) [
      | inl e ↦ read_sharers-no_token (suc (length text)) stale [] p e
      | inr less ↦ read_sharers-Ends (suc (length text)) stale [] p.0 p.1 (omega arith)
    ]
