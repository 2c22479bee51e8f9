-- ===== src/Packet/Scan.antt =====
-- lib/net/packet.cpp and packet_type_list.cpp: the packet that is read of bytes.
use arbore_experiment.Base.{
  ℕ, ◌-◌, Bool, not, Option, none, some, List, [], ◌∷◌, ltb, ◌==◌, if◌then◌else◌, length, drop,
  take,
}
use arbore_experiment.Key.{Key}
use arbore_experiment.Key.Bytes.{read_key}
use arbore_experiment.Netutil.{Read, got, malformed, ◌>>=◌, read32, read64, read_str, str_size}
use arbore_experiment.Address.{addr_size, read_addr, read_addr_list, addr_list_size}
use arbore_experiment.Chunk.{read_chunk, chunk_size}
use arbore_experiment.Dht.{create_data, serialised_size}
use arbore_experiment.Packet.{
  ArgType, t_uint32, t_uint64, t_key, t_str, t_addr, t_addr_list, t_chunk, t_data, Arg, uint32_arg,
  uint64_arg, key_arg, str_arg, addr_arg, addr_list_arg, chunk_arg, data_arg, PacketType, Packet,
}

-- GetPacketType of the PacketTypeList; none is UnknowType.
unfoldable pub find_type : List PacketType → ℕ → Option PacketType
find_type [] n = none
find_type (t ∷ types) n = let rest = find_type types n in if t.number == n then some t else rest

-- An unknown type makes the packet malformed.
unfoldable pub found : Option PacketType → Read PacketType
found none = malformed
found (some type) = got type

abbrev pub header_size : ℕ
header_size = 56

-- A branch of BuildArgsFromData: the argument, and the bytes from the new place of the pointer on.
-- `now` is the time of a Data, `stale` what memory holds for the fields that a chunk does not set.
module _ (now : ℕ) (stale : ℕ × Bool) where
  unfoldable pub read_arg : ArgType → List ℕ → Read (Arg × List ℕ)
  read_arg t_uint32 p = ◌>>=◌ {B = Arg × List ℕ} (read32 p) (λ n. got (uint32_arg n, drop 4 p))
  read_arg t_uint64 p = ◌>>=◌ {B = Arg × List ℕ} (read64 p) (λ n. got (uint64_arg n, drop 8 p))
  read_arg t_key p = ◌>>=◌ {B = Arg × List ℕ} (read_key p) (λ k. got (key_arg k, drop 20 p))
  read_arg t_str p =
      ◌>>=◌ {B = Arg × List ℕ} (read_str p) (λ s. got (str_arg s, drop (str_size s) p))
  read_arg t_addr p =
      ◌>>=◌ {B = Arg × List ℕ} (read_addr p) (λ a. got (addr_arg a, drop addr_size p))
  read_arg t_addr_list p =
      ◌>>=◌ {B = Arg × List ℕ} (read_addr_list p)
        (λ l. got (addr_list_arg l, drop (addr_list_size l) p))
  read_arg t_chunk p =
      ◌>>=◌ {B = Arg × List ℕ} (read_chunk stale p) (λ c. got (chunk_arg c, drop (chunk_size c) p))
  read_arg t_data p =
      ◌>>=◌ {B = Arg × List ℕ} (create_data now p)
        (λ d. got (data_arg d, drop (serialised_size d) p))

  -- The loop of BuildArgsFromData: SetArg at the next number puts the argument at the end. Bytes
  -- that are left over are only logged.
  unfoldable pub read_args : List ArgType → List ℕ → Read (List (Option Arg))
  read_args [] p = got []
  read_args (t ∷ ts) p =
      ◌>>=◌ {B = List (Option Arg)} (read_arg t p)
        (λ r. ◌>>=◌ {B = List (Option Arg)} (read_args ts r.1) (λ l. got (some r.0 ∷ l)))

  -- The end of Packet(char*, size_t), for the type that was found: the sizes are tested, and the
  -- data is copied to a buffer that is freed after the arguments are built from it.
  unfoldable pub read_body : PacketType → Key → Key → ℕ → ℕ → ℕ → ℕ → List ℕ → Read Packet
  read_body type src dst size seqnum flags datasize p =
      if ltb datasize header_size
      then malformed
      else if not (size == datasize - header_size)
      then malformed
      else (read_args type.arg_types (take size p) >>= λ l. got (record {
        type = type;
        size = size;
        src = src;
        dst = dst;
        flags = flags;
        seqnum = seqnum;
        args = l;
        buffer = none;
      }))

  -- Packet(char*, size_t), of all the bytes that were received.
  unfoldable pub read_packet : List PacketType → List ℕ → Read Packet
  read_packet types h = do
    src ← read_key h
    let h1 = drop 20 h
    dst ← read_key h1
    let h2 = drop 20 h1
    n ← read32 h2
    type ← found (find_type types n)
    let h3 = drop 4 h2
    size ← read32 h3
    let h4 = drop 4 h3
    seqnum ← read32 h4
    let h5 = drop 4 h4
    flags ← read32 h5
    let h6 = drop 4 h5
    read_body type src dst size seqnum flags (length h) h6
