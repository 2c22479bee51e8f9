-- ===== src/Address.antt =====
-- lib/net/pf_addr.cpp and addr_list.cpp: the address of a host, and lists of addresses.
pub mod RoundTrip
use arbore_experiment.Base.{
  ℕ, zero, suc, ◌+◌, ◌*◌, ◌/◌, ◌%◌, Bool, true, false, ◌&&◌, List, [], ◌∷◌, ◌++◌, ltb, ◌==◌,
  if◌then◌else◌, length, drop,
}
use arbore_experiment.Key.{Key, eq, lt, is_null, to_bool}
use arbore_experiment.Key.Bytes.{dump_key, read_words, read_key}
use arbore_experiment.Netutil.{Read, got, malformed, past_end, ◌>>=◌, dump32, read32}

-- A pf_addr: the four words of ip, the port and the key.
pub record Addr : Type 0 where
  pub ip : List ℕ
  pub port : ℕ
  pub key : Key

-- pf_addr(in_addr_t, uint16_t, Key).
unfoldable pub of_v4 : ℕ → ℕ → Key → Addr
of_v4 address port key = record { ip = 0 ∷ 0 ∷ 0 ∷ address ∷ []; port = port; key = key }

-- operator== is false if one of the keys is null.
unfoldable pub same_addr : Addr → Addr → Bool
same_addr a b =
    if is_null a.key
    then false
    else if is_null b.key
    then false
    else eq a.ip b.ip && (a.port == b.port && eq a.key b.key)

-- The loop of operator< over ip, and what follows it.
unfoldable pub ip_lt : List ℕ → List ℕ → Bool → Bool
ip_lt (x ∷ xs) (y ∷ ys) rest = let later = ip_lt xs ys rest in if x == y then later else ltb x y
ip_lt _ _ rest = rest

unfoldable pub addr_lt : Addr → Addr → Bool
addr_lt a b = ip_lt a.ip b.ip (
    if a.port == b.port
    then (if to_bool a.key && to_bool b.key then lt a.key b.key else false)
    else ltb a.port b.port)

-- htons and ntohs, through the bytes.
unfoldable pub dump16 : ℕ → List ℕ
dump16 n = (n / 256) % 256 ∷ n % 256 ∷ []

unfoldable pub read16 : List ℕ → Read ℕ
read16 (a ∷ b ∷ rest) = got (a * 256 + b)
read16 _ = past_end

-- dump: the loop over the words of ip is that of Key::dump.
unfoldable pub dump_addr : Addr → List ℕ
dump_addr a = dump_key a.ip ++ (dump16 a.port ++ dump_key a.key)

-- pf_addr(const char*).
unfoldable pub read_addr : List ℕ → Read Addr
read_addr buff = do
  ip ← read_words 4 buff
  port ← read16 (drop 16 buff)
  key ← read_key (drop 2 (drop 16 buff))
  got (record { ip = ip; port = port; key = key })

-- pf_addr::size.
abbrev pub addr_size : ℕ
addr_size = 38

-- The loops of addr_list.
unfoldable pub dump_each : List Addr → List ℕ
dump_each [] = []
dump_each (a ∷ addrs) = dump_addr a ++ dump_each addrs

unfoldable pub read_each : ℕ → List ℕ → Read (List Addr)
read_each zero buff = got []
read_each (suc n) buff = do
  a ← read_addr buff
  addrs ← read_each n (drop addr_size buff)
  got (a ∷ addrs)

-- addr_list::dump, addr_list(char*) and getSerialisedSize.
unfoldable pub dump_addr_list : List Addr → List ℕ
dump_addr_list addrs = dump32 (length addrs % 4294967296) ++ dump_each addrs

unfoldable pub read_addr_list : List ℕ → Read (List Addr)
read_addr_list buff = do n ← read32 buff; read_each n (drop 4 buff)

unfoldable pub addr_list_size : List Addr → ℕ
addr_list_size addrs = 4 + length addrs * addr_size
