-- ===== src/Packet/Write.antt =====
-- lib/net/packet.cpp: the bytes that DumpBuffer makes of a packet.
use arbore_experiment.Base.{
  ℕ, ◌%◌, Option, none, some, List, [], ◌∷◌, ◌++◌, if◌then◌else◌, length, take,
}
use arbore_experiment.Key.Bytes.{dump_key}
use arbore_experiment.Netutil.{dump32, dump64, dump_str}
use arbore_experiment.Address.{dump_addr, dump_addr_list}
use arbore_experiment.Chunk.{dump_chunk}
use arbore_experiment.Dht.{dump}
use arbore_experiment.Packet.{
  ArgType, Arg, uint32_arg, uint64_arg, key_arg, str_arg, addr_arg, addr_list_arg, chunk_arg,
  data_arg, Packet, is_of,
}

-- What a branch of BuildDataFromArgs appends.
unfoldable pub dump_arg : Arg → List ℕ
dump_arg (uint32_arg n) = dump32 n
dump_arg (uint64_arg n) = dump64 n
dump_arg (key_arg k) = dump_key k
dump_arg (str_arg s) = dump_str s
dump_arg (addr_arg a) = dump_addr a
dump_arg (addr_list_arg l) = dump_addr_list l
dump_arg (chunk_arg c) = dump_chunk c
dump_arg (data_arg d) = dump d

-- The loop of BuildDataFromArgs, over the types and the arguments at their numbers. It is none
-- where an assertion of GetArg fails.
unfoldable pub dump_args : List ArgType → List (Option Arg) → Option (List ℕ)
dump_args [] args = some []
dump_args (t ∷ ts) [] = none
dump_args (t ∷ ts) (none ∷ args) = none
dump_args (t ∷ ts) (some a ∷ args) =
    let rest = dump_args ts args in
    if is_of t a then elim rest [ none ↦ none | some bytes ↦ some (dump_arg a ++ bytes) ] else none

-- BuildDataFromArgs, which does nothing if the buffer is there.
unfoldable pub built : Packet → Option (List ℕ) → Option Packet
built p none = none
built p (some bytes) = some (record p { size = length bytes % 4294967296; buffer = some bytes })

unfoldable pub build_data : Packet → Option (List ℕ) → Option Packet
unfolding built
build_data p none = built p (dump_args p.type.arg_types p.args)
build_data p (some bytes) = some p

-- The part of DumpBuffer behind that: the header and the data.
unfoldable pub header : Packet → List ℕ
header p =
    dump_key p.src
    ++ (dump_key p.dst
        ++ (dump32 p.type.number ++ (dump32 p.size ++ (dump32 p.seqnum ++ dump32 p.flags))))

unfoldable pub buffer_bytes : Option (List ℕ) → List ℕ
buffer_bytes none = []
buffer_bytes (some bytes) = bytes

unfoldable pub with_header : Packet → List ℕ
unfolding buffer_bytes
with_header p = header p ++ take p.size (buffer_bytes p.buffer)

-- DumpBuffer: the bytes, and the packet with the buffer that it keeps.
unfoldable pub dumped : Option Packet → Option (List ℕ × Packet)
dumped none = none
dumped (some p) = some (with_header p, p)

unfoldable pub dump_buffer : Packet → Option (List ℕ × Packet)
unfolding dumped
dump_buffer p = dumped (build_data p p.buffer)
