-- ===== src/Chimera.antt =====
-- lib/chimera/chimera.cpp: a node of the overlay, which sends over the network and routes by its
-- leafset and routing table. Its packets are handled by the children.
pub mod Handlers
pub mod Owner
pub mod Live
use arbore_experiment.Base.{
  ℕ, zero, suc, ◌+◌, Bool, true, false, ◌&&◌, ◌||◌, not, Option, none, some, List, [], ◌∷◌, ltb,
  leb, ◌==◌, if◌then◌else◌, length, map,
}
use arbore_experiment.Key.{Key, eq, gt, distance, to_bool}
use arbore_experiment.Address.{Addr}
use arbore_experiment.Host.{
  Host, invalid, ref, Heap, same, is_valid, key_of, success_avg_of, failure_time_of,
  set_failure_time, addr_of,
}
use arbore_experiment.Packet.{Packet, PacketType, Arg, addr_arg, addr_list_arg, new_packet, set_arg}
use arbore_experiment.Scheduler.{repeat_periodic, queue}
use arbore_experiment.Routing.{
  Routing, get_leafset, get_routing_table, get_cw_leafset, get_ccw_leafset,
}
use arbore_experiment.Routing
use arbore_experiment.Network.{World, check_leafset, put_job}
use arbore_experiment.Network.Hosts
use arbore_experiment.Network
use arbore_experiment.Step.{Step, returns, unbounded, ◌>>=◌, of_network, of_routing, asserted}
use arbore_experiment.Messages.{join_type, piggy_type, ping_type, same_type, arg_at, as_addr}

-- What the system answers: the result of sendto, and the time, by the number of the packets that
-- were given to sendto before.
pub record System : Type 0 where
  pub sendto : ℕ → Bool
  pub clock : ℕ → ℕ

-- A Chimera with what it shares: the network and the hosts, and the routing.
pub record Node : Type 0 where
  pub world : World
  pub routing : Routing
  pub me : Host
  pub fd : ℕ

-- GRACEPERIOD in microseconds, and the period of the CheckLeafsetJob. BAD_LINK is 0.3, in twentieths.
abbrev pub grace_period : ℕ
grace_period = 30000000

abbrev pub check_interval : ℕ
check_interval = 20000000

abbrev pub bad_link : ℕ
bad_link = 6

-- The rounds of routeLookup's loops: one for each column behind the first, and one.
abbrev pub lookup_fuel : ℕ
lookup_fuel = 700

unfoldable pub heap_of : Node → Heap
heap_of n = n.world.heap

unfoldable pub my_key : Node → Key
my_key n = key_of n.world.heap n.me

unfoldable pub my_addr : Node → Addr
my_addr n = addr_of n.world.heap n.me

unfoldable pub now : System → Node → ℕ
now sys n = sys.clock (length n.world.wire)

unfoldable pub with_world : Node → World → Node
with_world n w = record n { world = w }

unfoldable pub with_heap : Node → Heap → Node
with_heap n heap = record n { world = record n.world { heap = heap } }

unfoldable pub sent_by : Node → World × Bool → Node × Bool
unfolding with_world
sent_by n (w, b) = (with_world n w, b)

-- hosts_list.GetHost.
unfoldable pub get_host : Addr → Node → Node × Host
unfolding with_world
get_host a n = let (w, h) = Hosts.get_host a n.world in (with_world n w, h)

-- GetRouting()->add, remove and routeLookup.
unfoldable pub routed : Node → Routing × Bool → Node
routed n (r, b) = record n { routing = r }

unfoldable pub add : Host → Node → Step Node
unfolding routed
add h n = of_routing (Routing.add n.world.heap n.routing h) >>= λ r. returns (routed n r)

unfoldable pub remove : Host → Node → Step Node
unfolding routed
remove h n = of_routing (Routing.remove n.world.heap n.routing h) >>= λ r. returns (routed n r)

unfoldable pub route_lookup : Key → Node → Step Host
route_lookup key n = of_routing (Routing.route_lookup n.world.heap lookup_fuel n.routing key)

-- Packet(type, me.GetKey(), dst) with SetArg of one argument.
unfoldable pub packet_to : PacketType → Arg → Key → Node → Packet
packet_to type a dst n = record (new_packet type (my_key n) dst) { args = set_arg 0 a [] }

unfoldable pub queue_check : ℕ → Node → Node
unfolding with_world
queue_check time n =
    let w = n.world in
    with_world n (record w {
      jobs = put_job w.jobs w.next_job (some (check_leafset 0));
      next_job = suc w.next_job;
      jobs_queue =
          queue
            (record {
              address = w.next_job;
              start_time = time;
              repeat_type = repeat_periodic;
              repeat_delta = check_interval;
            })
            w.jobs_queue;
    })

-- ClosestTo: the first leaf of each side is the nearest.
unfoldable pub owner_cw : Heap → Key → Key → List Host → Bool
owner_cw heap key mine [] = true
owner_cw heap key mine (h ∷ hs) = not (gt (distance key mine) (distance key (key_of heap h)))

-- Key has no operator>=, so the test on this side is that of the two keys as bool.
unfoldable pub bool_ge : Bool → Bool → Bool
bool_ge true b = true
bool_ge false b = not b

unfoldable pub owner_ccw : Heap → Key → Key → List Host → Bool
unfolding bool_ge
owner_ccw heap key mine [] = true
owner_ccw heap key mine (h ∷ hs) =
    not (bool_ge (to_bool (distance key mine)) (to_bool (distance key (key_of heap h))))

unfoldable pub closest_to : Key → Node → Bool
unfolding owner_cw owner_ccw my_key
closest_to key n =
    owner_cw n.world.heap key (my_key n) (get_cw_leafset n.routing)
    && owner_ccw n.world.heap key (my_key n) (get_ccw_leafset n.routing)

-- A JOIN is not sent to the node that it comes from.
unfoldable pub other_host : Packet → Host → Node → Step (Node × Host)
other_host p next n =
    if eq (key_of n.world.heap next) p.dst && same_type p.type join_type
    then (do n' ← remove next n; next' ← route_lookup p.dst n'; returns (n', next'))
    else returns (n, next)

unfoldable pub unless_sent : Node × Bool → (Node → Step Node) → Step Node
unless_sent (n, true) next = returns n
unless_sent (n, false) next = next n

module _ (sys : System) where
  -- Send.
  unfoldable pub send : Host → Packet → Node → Step (Node × Bool)
  unfolding sent_by now
  send dest p n =
      let tried =
        Network.send (sys.sendto (length n.world.wire)) (now sys n) (now sys n) n.fd dest p
          n.world in
      of_network tried >>= λ r. returns (sent_by n r)

  -- The loops of SendToNeighbours over one side; the flag is `success`.
  unfoldable pub send_each : List Host → ℕ → Packet → Node → Bool → Step (Node × Bool)
  send_each [] number p n success = returns (n, success)
  send_each (h ∷ hs) zero p n success = returns (n, success)
  send_each (h ∷ hs) (suc number) p n success = do
    (n', sent) ← send h p n
    send_each hs number p n' (sent || success)

  unfoldable pub send_to_neighbours : ℕ → Packet → Node → Step (Node × Bool)
  send_to_neighbours number p n = do
    (n', success) ← send_each (get_cw_leafset n.routing) number p n false
    send_each (get_ccw_leafset n'.routing) number p n' success

  -- Ping.
  unfoldable pub ping : Host → Node → Step (Node × Bool)
  ping dest n =
      send dest (packet_to ping_type (addr_arg (my_addr n)) (key_of n.world.heap dest) n) n

  -- Join. The CheckLeafsetJob of the first node starts at once.
  unfoldable pub join : Host → Node → Step Node
  join invalid n = returns (queue_check (now sys n) n)
  join (ref b) n = do
    (n', sent) ←
        send (ref b) (packet_to join_type (addr_arg (my_addr n)) (key_of n.world.heap (ref b)) n) n
    returns n'

  -- SetFailureTime, and the removal of a bad link.
  unfoldable pub failed : Host → Node → Step Node
  unfolding with_heap
  failed h n =
      let n' = with_heap n (set_failure_time n.world.heap h (now sys n)) in
      if ltb (success_avg_of n'.world.heap h) bad_link then remove h n' else returns n'

  -- The loop of Route, with the tries that are left.
  unfoldable pub send_on : ℕ → Host → Packet → Node → Step Node
  unfolding unless_sent
  send_on zero next p n = unbounded
  send_on (suc tries) next p n = do
    r ← send next p n
    unless_sent r
        (λ n'. do m ← failed next n'; next' ← route_lookup p.dst m; send_on tries next' p m)

  -- sendRowInfo.
  unfoldable pub send_row_info : Packet → Node → Step Node
  send_row_info p n = do
    a ← asserted (as_addr (arg_at p.args 0))
    let (n', h) = get_host a n
    rowset ← of_routing (Routing.row_lookup n'.world.heap n'.routing (key_of n'.world.heap h))
    (m, sent) ←
        send h
          (packet_to piggy_type (addr_list_arg (map (addr_of n'.world.heap) rowset))
            (key_of n'.world.heap h) n')
          n'
    returns m

  -- The part of Route behind the lookups.
  unfoldable pub forward : ℕ → Packet → Node × Host → Step (Node × Bool)
  forward tries p (n, next) = if same next n.me then returns (n, false) else (do
    n' ← send_on tries next p n
    m ← if same_type p.type join_type then send_row_info p n' else returns n'
    returns (m, true))

  -- Route.
  unfoldable pub route : ℕ → Packet → Node → Step (Node × Bool)
  unfolding forward other_host
  route tries p n =
      if eq p.dst (my_key n)
      then returns (n, false)
      else (do next ← route_lookup p.dst n; found ← other_host p next n; forward tries p found)
