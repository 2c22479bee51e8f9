-- ===== src/Packet/Fit.antt =====
-- Arguments that fit the types of a packet (lib/net/packet.cpp), and their bytes.
use mathlib.Core.List.{append_assoc}
use arbore_experiment.Base.{
  ℕ, ◌≡◌, ◌<◌, refl, sym, ◌∙◌, List, [], ◌∷◌, ◌++◌, length, drop_by, Bool, true, Option, some, none,
  All,
}
use arbore_experiment.Key.{Key, IsKey}
use arbore_experiment.Key.Bytes.{read_key-dump_key, drop-dump_key}
use arbore_experiment.Netutil.{Str, got, dump32, dump64}
use arbore_experiment.Netutil.RoundTrip.{
  read32-dump32, drop-dump32, read64-dump64, IsText, read_str-dump_str, drop-dump_str,
}
use arbore_experiment.Address.{Addr}
use arbore_experiment.Address.RoundTrip.{
  IsAddr, read_addr-dump_addr, drop-dump_addr, read_addr_list-dump_addr_list, drop-dump_addr_list,
}
use arbore_experiment.Dht.{Data, string_list, key_list, dump, serialised_size}
use arbore_experiment.Dht.Codec.{IsData, at_time, create_data-dump}
use arbore_experiment.Dht.Size.{HasKeys, length-dump}
use arbore_experiment.Packet.{
  ArgType, t_uint32, t_uint64, t_key, t_str, t_addr, t_addr_list, t_data, Arg, uint32_arg,
  uint64_arg, key_arg, str_arg, addr_arg, addr_list_arg, data_arg, is_of,
}
use arbore_experiment.Packet.Write.{dump_arg, dump_args}
use arbore_experiment.Packet.Scan.{read_arg, read_args}

-- An argument that fits the type, in the bits of the byte form. Chunks are left out.
pub data Fits : ArgType → Arg → Type 0 where
  fits_uint32 : (n : ℕ) → n < 4294967296 → Fits t_uint32 (uint32_arg n)
  fits_uint64 : (n : ℕ) → n < 18446744073709551616 → Fits t_uint64 (uint64_arg n)
  fits_key : (k : Key) → IsKey k → Fits t_key (key_arg k)
  fits_str : (s : Str) → IsText s → length s < 4294967296 → Fits t_str (str_arg s)
  fits_addr : (a : Addr) → IsAddr a → Fits t_addr (addr_arg a)
  fits_addr_list :
      (l : List Addr) → All IsAddr l → length l < 4294967296 → Fits t_addr_list (addr_list_arg l)
  fits_data : (d : Data) → IsData d → Fits t_data (data_arg d)

-- One argument for each type.
pub data FitAll : List ArgType → List (Option Arg) → Type 0 where
  fit_nil : FitAll [] []
  fit_cons :
      {t : ArgType} {a : Arg} {ts : List ArgType} {args : List (Option Arg)}
      → Fits t a
      → FitAll ts args
      → FitAll (t ∷ ts) (some a ∷ args)

-- A Data is as old as its read.
unfoldable pub arg_at : ℕ → Arg → Arg
arg_at now (data_arg d) = data_arg (at_time now d)
arg_at now a = a

unfoldable pub args_at : ℕ → List (Option Arg) → List (Option Arg)
args_at now [] = []
args_at now (none ∷ args) = none ∷ args_at now args
args_at now (some a ∷ args) = some (arg_at now a) ∷ args_at now args

pub IsData-HasKeys : (d : Data) → IsData d → HasKeys d
IsData-HasKeys (string_list names t) h = tt
IsData-HasKeys (key_list keys t) h = h.2

pub serialised_size-at_time :
    (now : ℕ) (d : Data) → serialised_size (at_time now d) ≡ serialised_size d
unfolding serialised_size at_time
serialised_size-at_time now (string_list names t) = refl
serialised_size-at_time now (key_list keys t) = refl

-- The bytes of the arguments.
unfoldable pub all_bytes : List (Option Arg) → List ℕ
all_bytes [] = []
all_bytes (none ∷ args) = all_bytes args
all_bytes (some a ∷ args) = dump_arg a ++ all_bytes args

pub Fits-is_of : {t : ArgType} {a : Arg} → Fits t a → is_of t a ≡ true
unfolding is_of
Fits-is_of (fits_uint32 n h) = refl
Fits-is_of (fits_uint64 n h) = refl
Fits-is_of (fits_key k h) = refl
Fits-is_of (fits_str s h h') = refl
Fits-is_of (fits_addr a h) = refl
Fits-is_of (fits_addr_list l h h') = refl
Fits-is_of (fits_data d h) = refl

pub dump_args-FitAll :
    {ts : List ArgType} {args : List (Option Arg)}
    → FitAll ts args
    → dump_args ts args ≡ some (all_bytes args)
unfolding dump_args all_bytes
dump_args-FitAll fit_nil = refl
dump_args-FitAll (fit_cons f fs) = rw (Fits-is_of f, dump_args-FitAll fs) refl

module _ (now : ℕ) (stale : ℕ × Bool) where
  read_arg-dump_arg :
      {t : ArgType} {a : Arg} (rest : List ℕ)
      → Fits t a
      → read_arg now stale t (dump_arg a ++ rest) ≡ got (arg_at now a, rest)
  unfolding read_arg dump_arg arg_at
  read_arg-dump_arg rest (fits_uint32 n h) = rw (read32-dump32 n rest h, drop-dump32 n rest) refl
  read_arg-dump_arg rest (fits_uint64 n h) =
      let e : 8 ≡ length (dump64 n) = unfold dump64 dump32 in refl in
      rw (read64-dump64 n rest h, drop_by 8 (dump64 n) rest e) refl
  read_arg-dump_arg rest (fits_key k h) =
      rw (read_key-dump_key k rest h, drop-dump_key k rest h) refl
  read_arg-dump_arg rest (fits_str s h h') =
      rw (read_str-dump_str s rest h h', drop-dump_str s rest) refl
  read_arg-dump_arg rest (fits_addr a h) =
      rw (read_addr-dump_addr a rest h, drop-dump_addr a rest h) refl
  read_arg-dump_arg rest (fits_addr_list l h h') =
      rw (read_addr_list-dump_addr_list l rest h h', drop-dump_addr_list l rest h) refl
  read_arg-dump_arg rest (fits_data d h) =
      let e : serialised_size (at_time now d) ≡ length (dump d) =
        serialised_size-at_time now d ∙ sym (length-dump d (IsData-HasKeys d h)) in
      rw (create_data-dump now d rest h, drop_by (serialised_size (at_time now d)) (dump d) rest e)
        refl

  pub read_args-all_bytes :
      {ts : List ArgType} {args : List (Option Arg)} (rest : List ℕ)
      → FitAll ts args
      → read_args now stale ts (all_bytes args ++ rest) ≡ got (args_at now args)
  unfolding read_args all_bytes args_at
  read_args-all_bytes rest fit_nil = refl
  read_args-all_bytes rest (fit_cons {a = a} {args = args} f fs) =
      rw
        (
          append_assoc (dump_arg a) (all_bytes args) rest,
          read_arg-dump_arg (all_bytes args ++ rest) f,
          read_args-all_bytes rest fs,
        )
        refl
