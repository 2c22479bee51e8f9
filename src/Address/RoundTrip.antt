-- ===== src/Address/RoundTrip.antt =====
-- What lib/net/pf_addr.cpp and addr_list.cpp write, they read again.
use mathlib.Core.List.{append_assoc}
use arbore_experiment.Base.{
  ℕ, ◌*◌, ◌%◌, ◌≡◌, ◌<◌, refl, ap, sym, ◌∙◌, List, [], ◌∷◌, ◌++◌, length, drop, drop_by,
  length-append, All, arith,
}
use arbore_experiment.Key.{IsKey}
use arbore_experiment.Key.Bytes.{
  dump_key, read_words, read_words-dump_key, read_key-dump_key, length-dump_key,
}
use arbore_experiment.Netutil.{got, dump32}
use arbore_experiment.Netutil.RoundTrip.{read32-dump32, drop-dump32}
use arbore_experiment.Address.{
  Addr, dump16, read16, dump_addr, read_addr, dump_each, read_each, dump_addr_list, read_addr_list,
  addr_list_size,
}

-- Four words of 32 bits, a port of 16, and a key.
pub record IsAddr (a : Addr) : Type 0 where
  pub sized : length a.ip ≡ 4
  pub words : All (λ w. w < 4294967296) a.ip
  pub port : a.port < 65536
  pub key : IsKey a.key

read16-dump16 : (n : ℕ) (rest : List ℕ) → n < 65536 → read16 (dump16 n ++ rest) ≡ got n
unfolding read16 dump16
read16-dump16 n rest h = ap got (omega arith)

length-dump_addr : (a : Addr) → IsAddr a → length (dump_addr a) ≡ 38
unfolding dump_addr dump16
length-dump_addr a h = omega (
  arith,
  length-append (dump_key a.ip) (dump16 a.port ++ dump_key a.key),
  length-dump_key a.ip,
  length-dump_key a.key,
  h.sized,
  h.key.sized,
)

pub drop-dump_addr : (a : Addr) (rest : List ℕ) → IsAddr a → drop 38 (dump_addr a ++ rest) ≡ rest
drop-dump_addr a rest h = drop_by 38 (dump_addr a) rest (sym (length-dump_addr a h))

pub read_addr-dump_addr :
    (a : Addr) (rest : List ℕ) → IsAddr a → read_addr (dump_addr a ++ rest) ≡ got a
unfolding read_addr dump_addr
read_addr-dump_addr a rest h =
    let tail = dump16 a.port ++ (dump_key a.key ++ rest) in
    let whole : (dump_key a.ip ++ (dump16 a.port ++ dump_key a.key)) ++ rest
        ≡ dump_key a.ip ++ tail =
      append_assoc (dump_key a.ip) (dump16 a.port ++ dump_key a.key) rest
      ∙ ap (◌++◌ (dump_key a.ip)) (append_assoc (dump16 a.port) (dump_key a.key) rest) in
    let four : read_words 4 (dump_key a.ip ++ tail) ≡ got a.ip =
      ap (λ n. read_words n (dump_key a.ip ++ tail)) (sym h.sized)
      ∙ read_words-dump_key a.ip tail h.words in
    rw
      (
        whole,
        four,
        drop_by 16 (dump_key a.ip) tail (omega (arith, length-dump_key a.ip, h.sized)),
        read16-dump16 a.port (dump_key a.key ++ rest) h.port,
        drop_by 2 (dump16 a.port) (dump_key a.key ++ rest) (unfold dump16 in refl),
        read_key-dump_key a.key rest h.key,
      )
      refl

read_each-dump_each :
    (addrs : List Addr) (rest : List ℕ)
    → All IsAddr addrs
    → read_each (length addrs) (dump_each addrs ++ rest) ≡ got addrs
unfolding read_each dump_each
read_each-dump_each [] rest h = refl
read_each-dump_each (a ∷ addrs) rest h =
    rw
      (
        append_assoc (dump_addr a) (dump_each addrs) rest,
        read_addr-dump_addr a (dump_each addrs ++ rest) h.0,
        drop-dump_addr a (dump_each addrs ++ rest) h.0,
        read_each-dump_each addrs rest h.1,
      )
      refl

-- For fewer than 2^32 addresses of four 32-bit words, a 16-bit port and a key of five words, the
-- constructor of addr_list reads the bytes of `dump`, whatever follows them, as the same list.
pub read_addr_list-dump_addr_list :
    (addrs : List Addr) (rest : List ℕ)
    → All IsAddr addrs
    → length addrs < 4294967296
    → read_addr_list (dump_addr_list addrs ++ rest) ≡ got addrs
unfolding read_addr_list dump_addr_list
read_addr_list-dump_addr_list addrs rest h size =
    let e : length addrs % 4294967296 ≡ length addrs = omega arith in
    rw
      (
        e,
        append_assoc (dump32 (length addrs)) (dump_each addrs) rest,
        read32-dump32 (length addrs) (dump_each addrs ++ rest) size,
        drop-dump32 (length addrs) (dump_each addrs ++ rest),
      )
      (read_each-dump_each addrs rest h)

length-dump_each :
    (addrs : List Addr) → All IsAddr addrs → length (dump_each addrs) ≡ length addrs * 38
unfolding dump_each
length-dump_each [] h = omega arith
length-dump_each (a ∷ addrs) h = omega (
  arith,
  length-append (dump_addr a) (dump_each addrs),
  length-dump_addr a h.0,
  length-dump_each addrs h.1,
)

pub drop-dump_addr_list :
    (addrs : List Addr) (rest : List ℕ)
    → All IsAddr addrs
    → drop (addr_list_size addrs) (dump_addr_list addrs ++ rest) ≡ rest
unfolding addr_list_size dump_addr_list
drop-dump_addr_list addrs rest h =
    drop_by _ (dump32 (length addrs % 4294967296) ++ dump_each addrs) rest
      (unfold dump32 in omega (arith, length-dump_each addrs h))
