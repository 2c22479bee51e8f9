-- ===== src/Messages.antt =====
-- The packet types of lib/chimera/messages.cpp, lib/dht/messages.cpp and lib/files/messages.cpp, with
-- the numbers of lib/net/packet_type.h, and the reading of their arguments.
use arbore_experiment.Base.{
  ℕ, zero, suc, Bool, true, false, ◌&&◌, ◌==◌, Option, none, some, List, [], ◌∷◌,
}
use arbore_experiment.Key.{Key}
use arbore_experiment.Address.{Addr}
use arbore_experiment.Netutil.{Str}
use arbore_experiment.Dht.{Data}
use arbore_experiment.Chunk.{Chunk}
use arbore_experiment.Packet.{
  ArgType, t_uint32, t_uint64, t_key, t_str, t_addr, t_addr_list, t_chunk, t_data, Arg, key_arg,
  str_arg, addr_arg, addr_list_arg, chunk_arg, data_arg, Handler, handler_chimera, handler_dht,
  handler_arbore, PacketType,
}

unfoldable packet_type : ℕ → Handler → ℕ → List ArgType → PacketType
packet_type number handler flags types = record {
  number = number;
  handler = handler;
  def_flags = flags;
  arg_types = types;
}

-- REQUESTACK, and REQUESTACK|MUSTROUTE.
abbrev request_ack : ℕ
request_ack = 1

abbrev request_ack_must_route : ℕ
request_ack_must_route = 5

unfoldable pub join_type : PacketType
unfolding packet_type
join_type = packet_type 1 handler_chimera request_ack_must_route (t_addr ∷ [])

unfoldable pub join_ack_type : PacketType
unfolding packet_type
join_ack_type = packet_type 2 handler_chimera request_ack (t_addr_list ∷ [])

unfoldable pub update_type : PacketType
unfolding packet_type
update_type = packet_type 3 handler_chimera request_ack (t_addr ∷ [])

unfoldable pub piggy_type : PacketType
unfolding packet_type
piggy_type = packet_type 4 handler_chimera request_ack (t_addr_list ∷ [])

unfoldable pub join_nack_type : PacketType
unfolding packet_type
join_nack_type = packet_type 5 handler_chimera request_ack (t_addr ∷ [])

unfoldable pub ping_type : PacketType
unfolding packet_type
ping_type = packet_type 7 handler_chimera request_ack (t_addr ∷ [])

unfoldable pub chat_type : PacketType
unfolding packet_type
chat_type = packet_type 8 handler_chimera request_ack_must_route (t_str ∷ [])

unfoldable pub publish_type : PacketType
unfolding packet_type
publish_type = packet_type 12 handler_dht request_ack (t_key ∷ t_data ∷ [])

unfoldable pub repeat_publish_type : PacketType
unfolding packet_type
repeat_publish_type = packet_type 13 handler_dht request_ack (t_key ∷ t_data ∷ [])

unfoldable pub unpublish_type : PacketType
unfolding packet_type
unpublish_type = packet_type 14 handler_dht request_ack (t_key ∷ t_data ∷ [])

unfoldable pub repeat_unpublish_type : PacketType
unfolding packet_type
repeat_unpublish_type = packet_type 15 handler_dht request_ack (t_key ∷ t_data ∷ [])

unfoldable pub get_type : PacketType
unfolding packet_type
get_type = packet_type 16 handler_dht request_ack (t_key ∷ [])

unfoldable pub get_ack_type : PacketType
unfolding packet_type
get_ack_type = packet_type 17 handler_dht request_ack (t_key ∷ t_data ∷ [])

unfoldable pub get_nack_type : PacketType
unfolding packet_type
get_nack_type = packet_type 18 handler_dht request_ack (t_key ∷ [])

unfoldable pub chunk_send_type : PacketType
unfolding packet_type
chunk_send_type = packet_type 21 handler_arbore request_ack (t_chunk ∷ [])

-- operator== of two types is that of the vectors of argument types that they derive from.
unfoldable arg_type_number : ArgType → ℕ
arg_type_number t_uint32 = 0
arg_type_number t_uint64 = 1
arg_type_number t_key = 2
arg_type_number t_str = 3
arg_type_number t_addr = 4
arg_type_number t_addr_list = 5
arg_type_number t_chunk = 6
arg_type_number t_data = 7

unfoldable same_arg_types : List ArgType → List ArgType → Bool
unfolding arg_type_number
same_arg_types [] [] = true
same_arg_types [] (u ∷ us) = false
same_arg_types (t ∷ ts) [] = false
same_arg_types (t ∷ ts) (u ∷ us) = arg_type_number t == arg_type_number u && same_arg_types ts us

unfoldable pub same_type : PacketType → PacketType → Bool
unfolding same_arg_types
same_type t u = same_arg_types t.arg_types u.arg_types

-- GetArg<T>: none where one of its assertions fails.
unfoldable pub arg_at : List (Option Arg) → ℕ → Option Arg
arg_at [] n = none
arg_at (a ∷ args) zero = a
arg_at (a ∷ args) (suc n) = arg_at args n

unfoldable pub as_addr : Option Arg → Option Addr
as_addr (some (addr_arg a)) = some a
as_addr _ = none

unfoldable pub as_addr_list : Option Arg → Option (List Addr)
as_addr_list (some (addr_list_arg l)) = some l
as_addr_list _ = none

unfoldable pub as_key : Option Arg → Option Key
as_key (some (key_arg k)) = some k
as_key _ = none

unfoldable pub as_data : Option Arg → Option Data
as_data (some (data_arg d)) = some d
as_data _ = none

unfoldable pub as_str : Option Arg → Option Str
as_str (some (str_arg s)) = some s
as_str _ = none

unfoldable pub as_chunk : Option Arg → Option Chunk
as_chunk (some (chunk_arg c)) = some c
as_chunk _ = none
