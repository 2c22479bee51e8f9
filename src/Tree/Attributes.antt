-- ===== src/Tree/Attributes.antt =====
-- SetSharers, AddSharer, SetAttr and LoadAttr of lib/files/file_entry.cpp: attributes and sharers of
-- a file in memory and in tree_cfg.
pub mod Kept
use arbore_experiment.Base.{
  ℕ, zero, suc, ◌%◌, Bool, true, false, ◌||◌, not, Option, none, some, List, [], ◌∷◌, ◌++◌, ◌==◌,
  if◌then◌else◌, length,
}
use arbore_experiment.Key.{Key, lt, to_bool}
use arbore_experiment.Key.Parse.{of_str}
use arbore_experiment.Netutil.{Str}
use arbore_experiment.Dht.{insert}
use arbore_experiment.Session.{SessionConfig, set_text, set_uint32, get_text, get_uint32}
use arbore_experiment.Tools.{stringtok}
use arbore_experiment.Tree.{
  Stat, FileEntry, Memory, Access, done, unbounded, ◌>>=◌, entry_at, write, full_name,
}

abbrev pub size_opt : Str
size_opt = b'#' ∷ b's' ∷ b'i' ∷ b'z' ∷ b'e' ∷ []

abbrev pub meta_opt : Str
meta_opt = b'#' ∷ b'm' ∷ b'e' ∷ b't' ∷ b'a' ∷ []

abbrev pub pfmode_opt : Str
pfmode_opt = b'#' ∷ b'p' ∷ b'f' ∷ b'm' ∷ b'o' ∷ b'd' ∷ b'e' ∷ []

abbrev pub uid_opt : Str
uid_opt = b'#' ∷ b'u' ∷ b'i' ∷ b'd' ∷ []

abbrev pub gid_opt : Str
gid_opt = b'#' ∷ b'g' ∷ b'i' ∷ b'd' ∷ []

abbrev pub mode_opt : Str
mode_opt = b'#' ∷ b'm' ∷ b'o' ∷ b'd' ∷ b'e' ∷ []

abbrev pub sharers_opt : Str
sharers_opt = b'#' ∷ b's' ∷ b'h' ∷ b'a' ∷ b'r' ∷ b'e' ∷ b'r' ∷ b's' ∷ []

-- One statement of SetAttr: the value is cast to 32 bits.
unfoldable pub set_if : Bool → Str → ℕ → SessionConfig → SessionConfig
set_if changed opt n cfg = if changed then set_uint32 opt (n % 4294967296) cfg else cfg

-- What SetAttr writes into the configuration, for a file of this full name.
unfoldable pub write_attr : Bool → Str → Stat → Stat → SessionConfig → SessionConfig
unfolding set_if
write_attr force name old new cfg =
    let c1 = set_if (not (old.size == new.size) || force) (name ++ size_opt) new.size cfg in
    let c2 =
      set_if (not (old.meta_mtime == new.meta_mtime) || force) (name ++ meta_opt) new.meta_mtime
        c1 in
    let c3 =
      set_if (not (old.pf_mode == new.pf_mode) || force) (name ++ pfmode_opt) new.pf_mode c2 in
    let c4 = set_if (not (old.uid == new.uid) || force) (name ++ uid_opt) new.uid c3 in
    let c5 = set_if (not (old.gid == new.gid) || force) (name ++ gid_opt) new.gid c4 in
    set_if (not (old.mode == new.mode) || force) (name ++ mode_opt) new.mode c5

unfoldable pub set_attr :
    ℕ → Bool → Stat → ℕ → Memory → SessionConfig → Access (Memory × SessionConfig)
set_attr f force new i m cfg = do
  e ← entry_at m i
  name ← full_name f m i
  done (write m i (record e { stat = new }), write_attr force name e.stat new cfg)

-- What LoadAttr reads of the configuration: cfg_val, or the field as it is.
unfoldable pub or_old : Option ℕ → ℕ → ℕ
or_old none n = n
or_old (some v) n = v

unfoldable pub read_attr : SessionConfig → Str → Stat → Stat
unfolding or_old
read_attr cfg name s = record s {
  meta_mtime = or_old (get_uint32 cfg (name ++ meta_opt)) s.meta_mtime;
  size = or_old (get_uint32 cfg (name ++ size_opt)) s.size;
  pf_mode = or_old (get_uint32 cfg (name ++ pfmode_opt)) s.pf_mode;
  uid = or_old (get_uint32 cfg (name ++ uid_opt)) s.uid;
  gid = or_old (get_uint32 cfg (name ++ gid_opt)) s.gid;
  mode = or_old (get_uint32 cfg (name ++ mode_opt)) s.mode;
}

-- TypToStr of a Key, which has no operator<< but is converted to bool.
unfoldable pub key_text : Key → Str
key_text k = if to_bool k then b'1' ∷ [] else b'0' ∷ []

unfoldable pub behind_comma : Str → Str
behind_comma [] = []
behind_comma (c ∷ cs) = (c ∷ cs) ++ b',' ∷ []

unfoldable pub sharers_text : Str → List Key → Str
unfolding key_text behind_comma
sharers_text text [] = text
sharers_text text (k ∷ ks) = sharers_text (behind_comma text ++ key_text k) ks

unfoldable pub set_sharers :
    ℕ → List Key → ℕ → Memory → SessionConfig → Access (Memory × SessionConfig)
set_sharers f ks i m cfg = do
  e ← entry_at m i
  name ← full_name f m i
  done (
    write m i (record e { sharers = ks }),
    set_text (name ++ sharers_opt) (sharers_text [] ks) cfg,
  )

unfoldable pub add_sharer : ℕ → Key → ℕ → Memory → SessionConfig → Access (Memory × SessionConfig)
add_sharer f k i m cfg = do e ← entry_at m i; set_sharers f (insert lt k e.sharers) i m cfg

-- The loop of LoadAttr over the words between commas. A word of a key that its text does not
-- reach has no value; `stale` stands for what the memory held.
unfoldable pub read_sharers : ℕ → Key → List Key → Str × Str → Access (List Key)
read_sharers f stale ks ([], text) = done ks
read_sharers zero stale ks (t ∷ ts, text) = unbounded
read_sharers (suc f) stale ks (t ∷ ts, text) =
    read_sharers f stale (insert lt (of_str stale (t ∷ ts)) ks) (stringtok (b',' ∷ []) text)

unfoldable pub load_sharers :
    ℕ → Key → Option Str → ℕ → Memory → SessionConfig → Access (Memory × SessionConfig)
load_sharers f stale none i m cfg = done (m, cfg)
load_sharers f stale (some text) i m cfg = do
  ks ← read_sharers (suc (length text)) stale [] (stringtok (b',' ∷ []) text)
  set_sharers f ks i m cfg

unfoldable pub load_attr : ℕ → Key → ℕ → Memory → SessionConfig → Access (Memory × SessionConfig)
load_attr f stale i m cfg = do
  e ← entry_at m i
  name ← full_name f m i
  let m' = write m i (record e { stat = read_attr cfg name e.stat })
  load_sharers f stale (get_text cfg (name ++ sharers_opt)) i m' cfg
