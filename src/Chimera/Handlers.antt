-- ===== src/Chimera/Handlers.antt =====
-- lib/chimera/messages.cpp and check_leafset_job.cpp: what a node does with the packets of the
-- overlay, Chimera::HandleMessage, and the job that looks after the leafset.
pub mod Live
pub mod Join
use arbore_experiment.Base.{
  ℕ, zero, suc, ◌+◌, Bool, true, false, ◌&&◌, not, Option, none, some, List, [], ◌∷◌, ◌++◌, ltb,
  ◌==◌, if◌then◌else◌, map,
}
use arbore_experiment.Key.{zero_key}
use arbore_experiment.Address.{Addr}
use arbore_experiment.Host.{Host, Heap, is_valid, key_of, addr_of, failure_time_of, success_avg_of}
use arbore_experiment.Packet.{
  Packet, Arg, addr_arg, addr_list_arg, Handler, handler_chimera, handler_dht, handler_arbore,
  new_packet, set_arg, must_route,
}
use arbore_experiment.Routing.{get_leafset, get_routing_table}
use arbore_experiment.Step.{Step, returns, null_pointer, ◌>>=◌, of_routing, asserted}
use arbore_experiment.Messages.{
  join_type, join_ack_type, update_type, piggy_type, join_nack_type, ping_type, chat_type, arg_at,
  as_addr, as_addr_list, as_str,
}
use arbore_experiment.Chimera.{
  System, Node, grace_period, bad_link, my_key, my_addr, now, get_host, add, remove, packet_to,
  queue_check, send, ping, join, failed, route,
}

-- The addresses that a node knows of some hosts.
unfoldable pub addrs_of : List Host → Node → Arg
addrs_of hs n = addr_list_arg (map (addr_of n.world.heap) hs)

module _ (sys : System) where
  -- A JOIN is refused in the time behind a failure of the host, and else answered with the leafset.
  unfoldable pub handle_join : Packet → Node → Step Node
  unfolding addrs_of
  handle_join p n = do
    a ← asserted (as_addr (arg_at p.args 0))
    let (m, h) = get_host a n
    let k = key_of m.world.heap h
    let reply =
        if ltb (now sys m) (failure_time_of m.world.heap h + grace_period)
        then packet_to join_nack_type (addr_arg a) k m
        else packet_to join_ack_type (addrs_of (get_leafset m.routing ++ m.me ∷ []) m) k m
    (m', sent) ← send sys h reply m
    returns m'

  -- An UPDATE to a host.
  unfoldable pub send_update : Host → Node → Step Node
  send_update h n = do
    (n', sent) ←
        send sys h (packet_to update_type (addr_arg (my_addr n)) (key_of n.world.heap h) n) n
    returns n'

  -- The two loops of a JOIN_ACK.
  unfoldable pub add_each : List Addr → Node → Step Node
  add_each [] n = returns n
  add_each (a ∷ as') n = do
    let (m, h) = get_host a n
    m' ← add h m
    m'' ← send_update h m'
    add_each as' m''

  unfoldable pub update_each : List Host → Node → Step Node
  update_each [] n = returns n
  update_each (h ∷ hs) n = do n' ← send_update h n; update_each hs n'

  unfoldable pub handle_join_ack : Packet → Node → Step Node
  handle_join_ack p n = do
    addresses ← asserted (as_addr_list (arg_at p.args 0))
    n' ← add_each addresses n
    hosts ← of_routing (get_routing_table n'.routing)
    m ← update_each hosts n'
    returns (queue_check (now sys m) m)

  -- JOIN_NACK: the node joins again. The sleep before that only lets time go by.
  unfoldable pub handle_join_nack : Packet → Node → Step Node
  handle_join_nack p n = do
    a ← asserted (as_addr (arg_at p.args 0))
    let (m, h) = get_host a n
    join sys h m

  -- UPDATE.
  unfoldable pub handle_update : Packet → Node → Step Node
  handle_update p n = do
    a ← asserted (as_addr (arg_at p.args 0))
    let (m, h) = get_host a n
    add h m

  -- The loop of a PIGGY: a host is not added in the time behind its failure.
  unfoldable pub add_older : List Addr → Node → Step Node
  add_older [] n = returns n
  add_older (a ∷ as') n = do
    let (m, h) = get_host a n
    m' ←
        if ltb (failure_time_of m.world.heap h + grace_period) (now sys m)
        then add h m
        else returns m
    add_older as' m'

  unfoldable pub handle_piggy : Packet → Node → Step Node
  handle_piggy p n = do addresses ← asserted (as_addr_list (arg_at p.args 0)); add_older addresses n

  -- PING, and CHAT, which only prints.
  unfoldable pub handle_ping : Packet → Node → Step Node
  handle_ping p n = do
    a ← asserted (as_addr (arg_at p.args 0))
    let (m, h) = get_host a n
    returns m

  unfoldable pub handle_chat : Packet → Node → Step Node
  handle_chat p n = do s ← asserted (as_str (arg_at p.args 0)); returns n

  -- The call of the virtual Handle, by the number of the type that the handler belongs to.
  unfoldable pub handle : Packet → Node → Step Node
  handle p n =
      let number = p.type.number in
      if number == join_type.number
      then handle_join p n
      else if number == join_ack_type.number
      then handle_join_ack p n
      else if number == update_type.number
      then handle_update p n
      else if number == piggy_type.number
      then handle_piggy p n
      else if number == join_nack_type.number
      then handle_join_nack p n
      else if number == ping_type.number
      then handle_ping p n
      else if number == chat_type.number
      then handle_chat p n
      else null_pointer

  -- What HandleMessage leaves to the layer above, if there is one: nothing, or the packet.
  unfoldable pub deliver : Packet → Node → Handler → Step (Node × Bool)
  deliver p n handler_chimera = handle p n >>= λ n'. returns (n', false)
  deliver p n handler_dht = returns (n, true)
  deliver p n handler_arbore = returns (n, true)

  unfoldable pub unless_routed : Packet → Node × Bool → Step (Node × Bool)
  unless_routed p (n, routed) = if routed then returns (n, false) else deliver p n p.type.handler

  -- HandleMessage, with the tries of Route.
  unfoldable pub handle_message : ℕ → Packet → Node → Step (Node × Bool)
  unfolding unless_routed
  handle_message tries p n =
      (if must_route p then route sys tries p n else returns (n, false)) >>= unless_routed p

  -- The loops of CheckLeafsetJob::Start: a host that does not take a ping has failed.
  unfoldable pub ping_each : List Host → Node → Step Node
  ping_each [] n = returns n
  ping_each (h ∷ hs) n =
      if is_valid h
      then (do
        (n', sent) ← ping sys h n
        m ← if sent then returns n' else failed sys h n'
        ping_each hs m)
      else ping_each hs n

  unfoldable pub exchange : Packet → List Host → Node → Step Node
  exchange p [] n = returns n
  exchange p (h ∷ hs) n = do
    (n', sent) ← send sys h (record p { dst = key_of n.world.heap h }) n
    m ←
        if not sent && ltb (success_avg_of n'.world.heap h) bad_link
        then remove h n'
        else returns n'
    exchange p hs m

  -- The leafset is exchanged in every third run.
  unfoldable pub exchange_after : ℕ → Node → Step (Node × ℕ)
  unfolding addrs_of
  exchange_after count n =
      let leafset = get_leafset n.routing ++ n.me ∷ [] in
      if count == 2
      then (exchange (packet_to piggy_type (addrs_of leafset n) zero_key n) leafset n >>= λ m.
          returns (m, 0))
      else returns (n, suc count)

  -- CheckLeafsetJob::Start: the node and the new count.
  unfoldable pub check_leafset : ℕ → Node → Step (Node × ℕ)
  unfolding exchange_after
  check_leafset count n = do
    n' ← ping_each (get_leafset n.routing) n
    table ← of_routing (get_routing_table n'.routing)
    m ← ping_each table n'
    exchange_after count m
