-- ===== src/Packet/RoundTrip.antt =====
-- What DumpBuffer of lib/net/packet.cpp writes, Packet(char*, size_t) reads again.
use mathlib.Core.List.{append_assoc, append-nil}
use arbore_experiment.Base.{
  ℕ, ◌+◌, ◌-◌, ◌%◌, ◌≡◌, ◌<◌, refl, sym, ◌∙◌, List, [], ◌++◌, length, take, length-append,
  take_of_length-le, Bool, true, false, some, none, arith, ltb, ◌==◌,
}
use arbore_experiment.Key.{IsKey}
use arbore_experiment.Key.Bytes.{dump_key, read_key-dump_key, drop-dump_key, length-dump_key}
use arbore_experiment.Netutil.{got, dump32}
use arbore_experiment.Netutil.RoundTrip.{read32-dump32, drop-dump32}
use arbore_experiment.Packet.{PacketType, Packet}
use arbore_experiment.Packet.Write.{build_data, header, with_header, dump_buffer}
use arbore_experiment.Packet.Scan.{find_type, found, read_body, read_packet}
use arbore_experiment.Packet.Fit.{FitAll, args_at, all_bytes, dump_args-FitAll, read_args-all_bytes}

-- A packet that can be sent: its type is registered, its arguments fit, and all numbers are in the
-- bits of the byte form.
pub record IsPacket (types : List PacketType) (p : Packet) : Type 0 where
  pub registered : find_type types p.type.number ≡ some p.type
  pub number : p.type.number < 4294967296
  pub src : IsKey p.src
  pub dst : IsKey p.dst
  pub seqnum : p.seqnum < 4294967296
  pub flags : p.flags < 4294967296
  pub fit : FitAll p.type.arg_types p.args
  pub short : length (all_bytes p.args) < 4294967296
  pub fresh : p.buffer ≡ none

-- The packet with the buffer that DumpBuffer leaves.
unfoldable pub sent : Packet → Packet
sent p = record p { size = length (all_bytes p.args); buffer = some (all_bytes p.args) }

-- The packet on the other side.
unfoldable pub received : ℕ → Packet → Packet
received now p = record p {
  size = length (all_bytes p.args);
  args = args_at now p.args;
  buffer = none;
}

dump_buffer-IsPacket :
    (types : List PacketType) (p : Packet)
    → IsPacket types p
    → dump_buffer p ≡ some (header (sent p) ++ all_bytes p.args, sent p)
unfolding dump_buffer build_data sent with_header
dump_buffer-IsPacket types p h =
    let e : length (all_bytes p.args) % 4294967296 ≡ length (all_bytes p.args) =
      omega (arith, h.short) in
    let all : take (length (all_bytes p.args)) (all_bytes p.args) ≡ all_bytes p.args =
      take_of_length-le _ (all_bytes p.args) (omega arith) in
    rw (h.fresh, dump_args-FitAll h.fit, e, all) refl

length-header : (p : Packet) → IsKey p.src → IsKey p.dst → length (header p) ≡ 56
unfolding header dump32
length-header p hs hd = omega (
  arith,
  length-append (dump_key p.src) (
      dump_key p.dst
      ++ (dump32 p.type.number ++ (dump32 p.size ++ (dump32 p.seqnum ++ dump32 p.flags)))),
  length-append (dump_key p.dst)
      (dump32 p.type.number ++ (dump32 p.size ++ (dump32 p.seqnum ++ dump32 p.flags))),
  length-dump_key p.src,
  length-dump_key p.dst,
  hs.sized,
  hd.sized,
)

header-parts :
    (p : Packet) (rest : List ℕ)
    → header p ++ rest
      ≡ dump_key p.src
        ++ (dump_key p.dst
            ++ (dump32 p.type.number
                ++ (dump32 p.size ++ (dump32 p.seqnum ++ (dump32 p.flags ++ rest)))))
unfolding header
header-parts p rest = simp append_assoc

module _ (now : ℕ) (stale : ℕ × Bool) (types : List PacketType) (p : Packet)
    (h : IsPacket types p) where
  read_body-sent :
      read_body now stale p.type p.src p.dst
        (length (all_bytes p.args))
        p.seqnum
        p.flags
        (length (all_bytes p.args) + 56)
        (all_bytes p.args)
      ≡ got (received now p)
  unfolding read_body received
  read_body-sent =
      let n = length (all_bytes p.args) in
      let big : ltb (n + 56) 56 ≡ false = ground arith in
      let same : (n == n + 56 - 56) ≡ true = ground arith in
      let all : take n (all_bytes p.args) ≡ all_bytes p.args ++ [] =
        take_of_length-le n (all_bytes p.args) (omega arith)
        ∙ sym (append-nil (all_bytes p.args)) in
      rw (big, same, all, read_args-all_bytes now stale [] h.fit) refl

  read_packet-sent :
      read_packet now stale types (header (sent p) ++ all_bytes p.args) ≡ got (received now p)
  unfolding read_packet sent found
  read_packet-sent =
      let b = all_bytes p.args in
      let size : length (header (sent p) ++ b) ≡ length b + 56 =
        omega (arith, length-append (header (sent p)) b, length-header (sent p) h.src h.dst) in
      let h5 = dump32 p.flags ++ b in
      let h4 = dump32 p.seqnum ++ h5 in
      let h3 = dump32 (length b) ++ h4 in
      let h2 = dump32 p.type.number ++ h3 in
      let h1 = dump_key p.dst ++ h2 in
      rw
        (
          size,
          header-parts (sent p) b,
          read_key-dump_key p.src h1 h.src,
          drop-dump_key p.src h1 h.src,
          read_key-dump_key p.dst h2 h.dst,
          drop-dump_key p.dst h2 h.dst,
          read32-dump32 p.type.number h3 h.number,
          drop-dump32 p.type.number h3,
          h.registered,
          read32-dump32 (length b) h4 h.short,
          drop-dump32 (length b) h4,
          read32-dump32 p.seqnum h5 h.seqnum,
          drop-dump32 p.seqnum h5,
          read32-dump32 p.flags b h.flags,
          drop-dump32 p.flags b,
        )
        read_body-sent

-- For a packet of a registered type with one argument that fits each argument type, chunks left
-- out, keys of five words, fields of 32 bits and no data buffer: DumpBuffer gives bytes, and the
-- constructor from bytes reads these as a packet with the same fields and arguments, where a Data
-- has the time of the read.
pub read_packet-dump_buffer :
    (now : ℕ) (stale : ℕ × Bool) (types : List PacketType) (p : Packet)
    → IsPacket types p
    → (bytes : List ℕ) × (dump_buffer p ≡ some (bytes, sent p))
      × (read_packet now stale types bytes ≡ got (received now p))
read_packet-dump_buffer now stale types p h = (
  header (sent p) ++ all_bytes p.args,
  dump_buffer-IsPacket types p h,
  read_packet-sent now stale types p h,
)
