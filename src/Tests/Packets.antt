-- ===== src/Tests/Packets.antt =====
-- Runs of lib/net/packet.cpp, lib/net/addr_list.cpp and lib/files/file_chunk.cpp.
use arbore_experiment.Base.{ℕ, ◌≡◌, refl, arith, List, [], ◌∷◌, ◌++◌, ◌<◌, true, false, some, drop}
use arbore_experiment.Key.Bytes.{dump_key}
use arbore_experiment.Netutil.{got, dump32}
use arbore_experiment.Address.RoundTrip.{IsAddr, read_addr_list-dump_addr_list}
use arbore_experiment.Address.{dump_addr_list, read_addr_list}
use arbore_experiment.Chunk.{Chunk, bytes_of, dump_chunk, read_chunk}
use arbore_experiment.Chunk.Codec.{IsChunk, read_chunk-dump_chunk}
use arbore_experiment.Dht.{key_list, dump, dump_keys}
use arbore_experiment.Packet.{Packet, key_arg, data_arg, new_packet}
use arbore_experiment.Packet.Write.{dump_arg, dump_buffer}
use arbore_experiment.Packet.Scan.{find_type, read_packet}
use arbore_experiment.Packet.Fit.{fit_nil, fit_cons, fits_key, fits_data, all_bytes}
use arbore_experiment.Packet.RoundTrip.{IsPacket, sent, received, read_packet-dump_buffer}
use arbore_experiment.Messages.{publish_type, get_type}
use arbore_experiment.Tests.{key_at, key_at-IsKey, addr_at}

addr_at-IsAddr : (p : ℕ) → p < 4294967296 → IsAddr (addr_at p)
addr_at-IsAddr p h = record {
  sized = refl;
  words = omega arith;
  port = omega arith;
  key = key_at-IsKey p;
}

abbrev chunk : Chunk
chunk = record {
  desc = record { offset = 2; size = 5 };
  bytes = some (1 ∷ 2 ∷ 3 ∷ 4 ∷ 5 ∷ []);
  access_time = 0;
  hdd_synced = true;
}

chunk-IsChunk : IsChunk chunk
chunk-IsChunk = record { sized = refl; offset = omega arith; size = omega arith }

-- Of the five bytes the first four are lost, and four that belong to something else are read.
read_chunk-dump_chunk_example :
    read_chunk (6, false) (dump_chunk chunk ++ ((9 ∷ 9 ∷ 9 ∷ 9 ∷ []) ++ 8 ∷ []))
    ≡ got (record {
      desc = record { offset = 2; size = 5 };
      bytes = some (drop 4 (bytes_of (some (1 ∷ 2 ∷ 3 ∷ 4 ∷ 5 ∷ []))) ++ 9 ∷ 9 ∷ 9 ∷ 9 ∷ []);
      access_time = 6;
      hdd_synced = false;
    })
read_chunk-dump_chunk_example =
    read_chunk-dump_chunk 6 false chunk (9 ∷ 9 ∷ 9 ∷ 9 ∷ []) (8 ∷ []) chunk-IsChunk (omega arith)
      refl

-- A PUBLISH of one key.
abbrev published : Packet
unfolding publish_type new_packet
published = record (new_packet publish_type (key_at 8) (key_at 3)) {
  args = some (key_arg (key_at 3)) ∷ some (data_arg (key_list (key_at 9 ∷ []) 5)) ∷ [];
}

published-IsPacket : IsPacket (get_type ∷ publish_type ∷ []) published
unfolding find_type all_bytes dump_arg dump_key dump dump32 dump_keys publish_type get_type
    new_packet
published-IsPacket = record {
  registered = refl;
  number = omega arith;
  src = key_at-IsKey 8;
  dst = key_at-IsKey 3;
  seqnum = omega arith;
  flags = omega arith;
  fit = fit_cons (fits_key (key_at 3) (key_at-IsKey 3)) (
      fit_cons
        (fits_data (key_list (key_at 9 ∷ []) 5) ((tt, tt), omega arith, (key_at-IsKey 9, tt)))
        fit_nil);
  short = omega arith;
  fresh = refl;
}

read_packet-dump_buffer_example :
    (bytes : List ℕ) × (dump_buffer published ≡ some (bytes, sent published))
    × (read_packet 7 (0, false) (get_type ∷ publish_type ∷ []) bytes ≡ got (received 7 published))
read_packet-dump_buffer_example =
    read_packet-dump_buffer 7 (0, false) (get_type ∷ publish_type ∷ []) published published-IsPacket

read_addr_list-dump_addr_list_example :
    read_addr_list (dump_addr_list (addr_at 3 ∷ addr_at 18 ∷ []) ++ 7 ∷ [])
    ≡ got (addr_at 3 ∷ addr_at 18 ∷ [])
read_addr_list-dump_addr_list_example =
    read_addr_list-dump_addr_list (addr_at 3 ∷ addr_at 18 ∷ []) (7 ∷ [])
      (addr_at-IsAddr 3 (omega arith), (addr_at-IsAddr 18 (omega arith), tt)) (omega arith)
