-- ===== src/Chimera/Handlers/Join.antt =====
-- The answer to a JOIN (lib/chimera/messages.cpp).
use arbore_experiment.Base.{
  ◌+◌, ◌≡◌, ◌≤◌, ◌<◌, refl, ◌∙◌, true, Option, none, some, [], ◌∷◌, ◌++◌, ltb, length, arith, ◌⊎◌,
  inl, inr, Bool-cases,
}
use arbore_experiment.Address.{Addr}
use arbore_experiment.Host.{Host, failure_time_of, key_of}
use arbore_experiment.Packet.{Packet, addr_arg, new_packet, set_arg, is_of}
use arbore_experiment.Packet.Write.{dump_args}
use arbore_experiment.Network.Resend.{HasArgs}
use arbore_experiment.Routing.{get_leafset}
use arbore_experiment.Network.{World, numbered, is_open}
use arbore_experiment.Network.Hosts.{host_or_new, find_host}
use arbore_experiment.Network.Hosts
use arbore_experiment.Network.Wire.{send-Wires}
use arbore_experiment.Step.{returns, ◌>>=◌, of_network, asserted}
use arbore_experiment.Messages.{join_ack_type, join_nack_type, arg_at, as_addr}
use arbore_experiment.Chimera.{
  System, Node, grace_period, now, get_host, with_world, sent_by, packet_to, send,
}
use arbore_experiment.Chimera.Live.{NodeLive, get_host-Live}
use arbore_experiment.Chimera.Handlers.{addrs_of, handle_join}

host_or_new-kept :
    (a : Addr) (w : World) (o : Option Host)
    → ((host_or_new a w o).0.wire ≡ w.wire) × ((host_or_new a w o).0.socks ≡ w.socks)
unfolding host_or_new
host_or_new-kept a w none = (refl, refl)
host_or_new-kept a w (some h) = (refl, refl)

get_host-kept :
    (a : Addr) (n : Node)
    → ((get_host a n).0.fd ≡ n.fd)
      × ((get_host a n).0.world.wire ≡ n.world.wire)
      × ((get_host a n).0.world.socks ≡ n.world.socks)
unfolding get_host with_world Hosts.get_host
get_host-kept a n =
    let (wire, socks) = host_or_new-kept a n.world (find_host n.world.hosts a) in
    (refl, wire, socks)

module _ (sys : System) where
  -- The packet that answers: a refusal in the time behind a failure of the host, the leafset and
  -- the own address later.
  abbrev pub Replies : Addr → Node → Packet → Type 0
  Replies a n q =
      let m = (get_host a n).0 in
      let h = (get_host a n).1 in
      let free = failure_time_of m.world.heap h + grace_period in
      (q.dst ≡ key_of m.world.heap h)
      × (((now sys m < free) × (q.type ≡ join_nack_type) × (q.args ≡ some (addr_arg a) ∷ []))
          ⊎ ((free ≤ now sys m)
              × (q.type ≡ join_ack_type)
              × (q.args ≡ some (addrs_of (get_leafset m.routing ++ m.me ∷ []) m) ∷ [])))

  -- A node sends a new packet to a host that it has looked up.
  send_wired :
      (a : Addr) (n : Node) (p : Packet)
      → NodeLive n
      → is_open n.fd n.world.socks ≡ true
      → HasArgs p
      → (n' : Node) × ((send sys (get_host a n).1 p (get_host a n).0 >>= λ r. returns r.0)
          ≡ returns n')
        × (n'.world.wire
            ≡ (n.fd, (get_host a n).1, numbered (get_host a n).0.world.seqend p) ∷ n.world.wire)
  unfolding send sent_by with_world of_network ◌>>=◌
  send_wired a n p live opened has =
      let m = (get_host a n).0 in
      let (fd, wire, socks) = get_host-kept a n in
      let (w, b, e, sent) =
        send-Wires (sys.sendto (length m.world.wire)) (now sys m) (now sys m) m.fd (get_host a n).1
          p m.world (get_host-Live a n live) (rw (fd, socks) opened) has in
      (record m { world = w }, rw e refl, sent ∙ rw (fd, wire) refl)

  -- If the resend list is live, the socket is open and the JOIN has an address, then its handler
  -- returns and gives one packet to sendto, to the host of the address: a JOIN_NACK with that
  -- address if the time is less than the grace period behind the last failure of the host, and
  -- else a JOIN_ACK with the addresses of the leafset and of the node.
  pub handle_join-Replies :
      (p : Packet) (a : Addr) (n : Node)
      → NodeLive n
      → is_open n.fd n.world.socks ≡ true
      → arg_at p.args 0 ≡ some (addr_arg a)
      → (n' : Node) × (q : Packet) × (handle_join sys p n ≡ returns n')
        × (n'.world.wire ≡ (n.fd, (get_host a n).1, q) ∷ n.world.wire)
        × Replies a n q
  unfolding handle_join as_addr asserted numbered packet_to new_packet set_arg dump_args is_of
      addrs_of join_nack_type join_ack_type ◌>>=◌
  handle_join-Replies p a n live opened is_a =
      let m = (get_host a n).0 in
      let h = (get_host a n).1 in
      let free = failure_time_of m.world.heap h + grace_period in
      let k = key_of m.world.heap h in
      rw is_a (elim (Bool-cases (ltb (now sys m) free)) [
        | inl early ↦
            let (n', e, wire) =
              send_wired a n (packet_to join_nack_type (addr_arg a) k m) live opened (_, refl) in
            rw (early, e) (n', _, refl, wire, (refl, inl (ground arith, refl, refl)))
        | inr late ↦
            let leafset = addrs_of (get_leafset m.routing ++ m.me ∷ []) m in
            let (n', e, wire) =
              send_wired a n (packet_to join_ack_type leafset k m) live opened (_, refl) in
            rw (late, e) (n', _, refl, wire, (refl, inr (ground arith, refl, refl)))
      ])
