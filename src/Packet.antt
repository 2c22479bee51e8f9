-- ===== src/Packet.antt =====
-- lib/net/packet.cpp, packet_arg.h, packet_type.cpp and packet_type_list.cpp: packets, and their
-- byte form. ASSERT throws Malformated, as it does outside of debug builds.
pub mod Write
pub mod Scan
pub mod Fit
pub mod RoundTrip
use arbore_experiment.Base.{
  ℕ, zero, suc, ◌+◌, ◌-◌, ◌*◌, ◌/◌, ◌%◌, Bool, true, false, ◌&&◌, not, Option, none, some, List, [],
  ◌∷◌, ◌++◌, ltb, ◌==◌, if◌then◌else◌, length, drop, take, set, replicate,
}
use arbore_experiment.Key.{Key}
use arbore_experiment.Key.Bytes.{dump_key, read_key}
use arbore_experiment.Netutil.{
  Read, got, malformed, past_end, ◌>>=◌, Str, dump32, read32, dump64, read64, dump_str, read_str,
  str_size,
}
use arbore_experiment.Address.{
  Addr, addr_size, dump_addr, read_addr, dump_addr_list, read_addr_list, addr_list_size,
}
use arbore_experiment.Chunk.{Chunk, dump_chunk, read_chunk, chunk_size}
use arbore_experiment.Dht.{Data, dump, create_data, serialised_size}

-- PacketArgType. T_END only ends the list of a type.
pub data ArgType : Type 0 where
  t_uint32 t_uint64 t_key t_str t_addr t_addr_list t_chunk t_data : ArgType

-- A PacketArg<T>.
pub data Arg : Type 0 where
  uint32_arg : ℕ → Arg
  uint64_arg : ℕ → Arg
  key_arg : Key → Arg
  str_arg : Str → Arg
  addr_arg : Addr → Arg
  addr_list_arg : List Addr → Arg
  chunk_arg : Chunk → Arg
  data_arg : Data → Arg

-- HandlerType of the handler of a type.
pub data Handler : Type 0 where
  handler_chimera handler_dht handler_arbore : Handler

-- A PacketType, without the name that is printed.
pub record PacketType : Type 0 where
  pub number : ℕ
  pub handler : Handler
  pub def_flags : ℕ
  pub arg_types : List ArgType

-- A Packet. A null pointer of arg_lst is none, as is the data buffer of a packet that was not dumped.
pub record Packet : Type 0 where
  pub type : PacketType
  pub size : ℕ
  pub src : Key
  pub dst : Key
  pub flags : ℕ
  pub seqnum : ℕ
  pub args : List (Option Arg)
  pub buffer : Option (List ℕ)

-- Packet(const PacketType&, const Key&, const Key&).
unfoldable pub new_packet : PacketType → Key → Key → Packet
new_packet type src dst = record {
  type = type;
  size = 0;
  src = src;
  dst = dst;
  flags = type.def_flags;
  seqnum = 0;
  args = [];
  buffer = none;
}

-- HasFlag of REQUESTACK, ACK and MUSTROUTE, the bits 0, 1 and 2.
unfoldable pub requests_ack : Packet → Bool
requests_ack p = p.flags % 2 == 1

unfoldable pub is_ack : Packet → Bool
is_ack p = (p.flags / 2) % 2 == 1

unfoldable pub must_route : Packet → Bool
must_route p = (p.flags / 4) % 2 == 1

-- SetArg: the list grows with null pointers as far as is needed.
unfoldable pub set_arg : ℕ → Arg → List (Option Arg) → List (Option Arg)
set_arg zero a [] = some a ∷ []
set_arg zero a (x ∷ xs) = some a ∷ xs
set_arg (suc n) a [] = none ∷ set_arg n a []
set_arg (suc n) a (x ∷ xs) = x ∷ set_arg n a xs

-- The dynamic_cast of GetArg<T> for the T of a type.
unfoldable pub is_of : ArgType → Arg → Bool
is_of t_uint32 (uint32_arg n) = true
is_of t_uint64 (uint64_arg n) = true
is_of t_key (key_arg k) = true
is_of t_str (str_arg s) = true
is_of t_addr (addr_arg a) = true
is_of t_addr_list (addr_list_arg l) = true
is_of t_chunk (chunk_arg c) = true
is_of t_data (data_arg d) = true
is_of _ _ = false
