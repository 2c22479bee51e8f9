-- ===== src/Network/Loop.antt =====
-- lib/net/network.cpp: what Loop does with a datagram.
use arbore_experiment.Base.{ℕ, Bool, Option, none, some, List, ltb, if◌then◌else◌, length}
use arbore_experiment.Key.{zero_key}
use arbore_experiment.Address.{of_v4}
use arbore_experiment.Host.{Host, Latencies}
use arbore_experiment.Netutil.{Read, got, malformed, past_end}
use arbore_experiment.Packet.{Packet, PacketType, requests_ack, is_ack}
use arbore_experiment.Packet.Scan.{header_size, read_packet}
use arbore_experiment.Network.{
  World, Outcome, done, send, queue_packet, receive_ack, ack_of, map_outcome,
}
use arbore_experiment.Network.Hosts.{get_host, learn_key}

-- The rest of Loop for a packet: an ACK is used up, one that requests an ACK gets it, and the packet
-- is queued.
unfoldable pub after_ack : Host → Packet → World × Bool → World
after_ack sender p (w, sent) = queue_packet sender p w

unfoldable pub receive_packet : Latencies → Bool → ℕ → ℕ → ℕ → Host → Packet → World → Outcome World
receive_packet l accepted start now sock sender p w =
    if is_ack p
    then receive_ack l now sender p w
    else if requests_ack p
    then map_outcome (after_ack sender p) (send accepted start now sock sender (ack_of p) w)
    else done (queue_packet sender p w)

-- What Loop does with the bytes of recvfrom, from an address and a port. none is a read behind them.
unfoldable pub receive_read :
    Latencies → Bool → ℕ → ℕ → ℕ → ℕ → ℕ → World → Read Packet → Option (Outcome World)
receive_read l accepted start now sock ip port w (got p) =
    let (w', sender) = get_host (of_v4 ip port zero_key) w in
    some (receive_packet l accepted start now sock sender p (learn_key sender p.src w'))
receive_read l accepted start now sock ip port w malformed = some (done w)
receive_read l accepted start now sock ip port w past_end = none

unfoldable pub receive :
    Latencies
    → List PacketType
    → ℕ × Bool
    → Bool
    → ℕ
    → ℕ
    → ℕ
    → ℕ
    → ℕ
    → List ℕ
    → World
    → Option (Outcome World)
receive l types stale accepted start now sock ip port bytes w =
    if ltb (length bytes) header_size
    then some (done w)
    else receive_read l accepted start now sock ip port w (read_packet now stale types bytes)
