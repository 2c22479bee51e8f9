-- ===== src/Tests/Sessions.antt =====
-- Runs of lib/util/session_config.cpp, of attributes in tree_cfg and of keys as text.
use arbore_experiment.Base.{ℕ, ◌≡◌, ◌≢◌, refl, inl, true, false, [], ◌∷◌, ◌==◌, arith}
use arbore_experiment.Key.Parse.{of_str}
use arbore_experiment.Key.Parse.RoundTrip.{of_str-get_str}
use arbore_experiment.Key.{get_str, zero_key, to_bool}
use arbore_experiment.Netutil.{Str}
use arbore_experiment.Dht.{str_lt}
use arbore_experiment.StrMap.{put}
use arbore_experiment.Session.{
  SessionConfig, new_config, set_text, before_equal, split_equal, set_split, parse, lines_of,
  load_line, load_lines, save, load,
}
use arbore_experiment.Session.File.{Lacks, Plain, IsConfig, load-save}
use arbore_experiment.Tree.{Stat}
use arbore_experiment.Tree.Attributes.{write_attr, read_attr, key_text, behind_comma, sharers_text}
use arbore_experiment.Tree.Attributes.Kept.{IsFullName, restored, read_attr-restart}
use arbore_experiment.Tests.{key_at, key_at-IsKey}

abbrev saved : SessionConfig
saved = record {
  filename = b'f' ∷ [];
  list = (b'/' ∷ b'a' ∷ [], b'1' ∷ []) ∷ (b'/' ∷ b'b' ∷ [], b'=' ∷ b'#' ∷ []) ∷ [];
}

apart : (c d : ℕ) → (c == d) ≡ false → c ≢ d
apart c d h = ground (arith, h)

Plain-entry : (c : ℕ) (v : Str) → c ≢ b'\n' → c ≢ b'=' → Lacks b'\n' v → Plain (b'/' ∷ c ∷ []) v
Plain-entry c v line equal value = record {
  name_line = (apart b'/' b'\n' refl, (line, tt));
  name_equal = (apart b'/' b'=' refl, (equal, tt));
  name_mark = λ cs e. absurd (ground (arith, e));
  value_line = value;
}

saved-IsConfig : IsConfig saved
unfolding str_lt
saved-IsConfig = record {
  ordered = ((refl, tt), (tt, tt));
  plain = (
    Plain-entry b'a' (b'1' ∷ []) (apart b'a' b'\n' refl) (apart b'a' b'=' refl)
        (apart b'1' b'\n' refl, tt),
    (
      Plain-entry b'b' (b'=' ∷ b'#' ∷ []) (apart b'b' b'\n' refl) (apart b'b' b'=' refl)
          (apart b'=' b'\n' refl, (apart b'#' b'\n' refl, tt)),
      tt,
    ),
  );
}

load-save_example :
    (load true (save true saved).1 (b'g' ∷ []) new_config).0
    ≡ record { filename = b'g' ∷ []; list = saved.list }
load-save_example = load-save saved b'f' [] true (b'g' ∷ []) refl saved-IsConfig

abbrev old_stat : Stat
old_stat = record {
  size = 5;
  atime = 1;
  mtime = 2;
  ctime = 3;
  meta_mtime = 4;
  pf_mode = 0;
  mode = 33152;
  uid = 7;
  gid = 8;
}

abbrev new_stat : Stat
new_stat = record old_stat { size = 4294967301; pf_mode = 1 }

abbrev file_x : Str
file_x = b'/' ∷ b'x' ∷ []

file_x-IsFullName : IsFullName file_x
file_x-IsFullName = record {
  rest = b'x' ∷ [];
  rooted = refl;
  one_line = (apart b'/' b'\n' refl, (apart b'x' b'\n' refl, tt));
  no_equal = (apart b'/' b'=' refl, (apart b'x' b'=' refl, tt));
}

read_attr-restart_example :
    read_attr
      (load true
        (save true (write_attr true file_x old_stat new_stat saved)).1
        (b'f' ∷ [])
        new_config).0
      file_x
      old_stat
    ≡ restored new_stat old_stat
read_attr-restart_example =
    read_attr-restart true file_x old_stat new_stat old_stat saved b'f' [] true (b'f' ∷ [])
      (inl refl) refl saved-IsConfig file_x-IsFullName

of_str-get_str_example : of_str zero_key (get_str (key_at 37)) ≡ key_at 37
of_str-get_str_example = of_str-get_str zero_key (key_at 37) refl (key_at-IsKey 37)

-- Of two sharers only that their keys are not null is written.
forgets : sharers_text [] (key_at 1 ∷ key_at 2 ∷ []) ≡ b'1' ∷ b',' ∷ b'1' ∷ []
unfolding sharers_text key_text behind_comma to_bool
forgets = refl

-- A line of the file: a comment, a value with `=`, and a last line without a newline.
loaded :
    (load_lines
      (lines_of [] (b'#' ∷ b'=' ∷ b'\n' ∷ b'k' ∷ b'=' ∷ b'=' ∷ b'\n' ∷ b'l' ∷ b'=' ∷ []))
      new_config).list
    ≡ (b'k' ∷ [], b'=' ∷ []) ∷ []
unfolding load_lines lines_of load_line parse split_equal before_equal set_split set_text put
loaded = refl
