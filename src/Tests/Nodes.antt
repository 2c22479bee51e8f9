-- ===== src/Tests/Nodes.antt =====
-- Runs of lib/chimera/chimera.cpp and messages.cpp.
use arbore_experiment.Base.{◌≡◌, ◌↔◌, refl, arith, [], ◌∷◌, All, true, some}
use arbore_experiment.Key.Order.{value}
use arbore_experiment.Host.{ref, key_of}
use arbore_experiment.Packet.{Packet, addr_arg}
use arbore_experiment.Leafset.{Leafset}
use arbore_experiment.Leafset.Invariant.{IsLeafset, cw_rank, ccw_rank}
use arbore_experiment.Network.{is_open}
use arbore_experiment.Step.{returns}
use arbore_experiment.Messages.{arg_at}
use arbore_experiment.Chimera.{System, Node, my_key, closest_to, get_host}
use arbore_experiment.Chimera.Owner.{Straight, NotNearer, Alone, closest_to_iff}
use arbore_experiment.Chimera.Handlers.{handle_join}
use arbore_experiment.Chimera.Handlers.Join.{Replies, handle_join-Replies}
use arbore_experiment.Tests.{heap, heap-ValidKeys, key_at, key_at-IsKey, addr_at, me}
use arbore_experiment.Tests.Networks.{world, world-IsLive, packet}

abbrev pub system : System
system = record { sendto = λ n. true; clock = λ n. 40000000 }

-- The leaves 9 and 10 stand above the own key and 7 below.
abbrev leafset : Leafset
leafset = record { me = me; leaves_cw = ref 9 ∷ ref 10 ∷ []; leaves_ccw = ref 7 ∷ [] }

abbrev pub node : Node
node = record {
  world = world;
  routing = record { me = me; routing_table = record { me = me; table = [] }; leafset = leafset };
  me = me;
  fd = 3;
}

leafset-IsLeafset : IsLeafset heap leafset
unfolding cw_rank ccw_rank value key_of
leafset-IsLeafset = omega arith

-- No way to the key 8 is longer than a half of the ring.
Straight-me : Straight (key_at 8) (key_at 8)
unfolding value
Straight-me = omega arith

Straight-cw : All (λ h. Straight (key_at 8) (key_of heap h)) (ref 9 ∷ ref 10 ∷ [])
unfolding value key_of
Straight-cw = omega arith

closest_to_iff_example : (closest_to (key_at 8) node ≡ true) ↔ (
    All (NotNearer heap (key_at 8) me) (ref 9 ∷ ref 10 ∷ [])
    × Alone heap (key_at 8) me (ref 7 ∷ []))
unfolding my_key key_of
closest_to_iff_example =
    closest_to_iff node (key_at 8) heap-ValidKeys leafset-IsLeafset refl (key_at-IsKey 8)
      Straight-me Straight-cw

-- The host of the address is new, so its last failure is at the time 0.
abbrev join : Packet
join = record (packet 0) { args = some (addr_arg (addr_at 12)) ∷ [] }

handle_join-Replies_example :
    (n : Node) × (q : Packet) × (handle_join system join node ≡ returns n)
    × (n.world.wire ≡ (3, (get_host (addr_at 12) node).1, q) ∷ [])
    × Replies system (addr_at 12) node q
unfolding arg_at is_open
handle_join-Replies_example =
    handle_join-Replies system join (addr_at 12) node world-IsLive refl refl
