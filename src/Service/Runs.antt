-- ===== src/Service/Runs.antt =====
-- A node with all of its layers (lib/net, lib/chimera and lib/dht) under any sequence of calls,
-- packets and checks of the leafset.
use arbore_experiment.Base.{ℕ, List, [], ◌∷◌, length, inl, inr}
use arbore_experiment.Key.{Key}
use arbore_experiment.Host.{Host, Latencies}
use arbore_experiment.Dht.{Data}
use arbore_experiment.Packet.{Packet}
use arbore_experiment.Network.Loop
use arbore_experiment.Network.Receive.{receive_packet-Ends}
use arbore_experiment.Step.{
  Step, returns, ◌>>=◌, of_network, Safe, returns_safe, assertion_safe, bind-Safe,
}
use arbore_experiment.Chimera.{System, now}
use arbore_experiment.Chimera.Handlers.{check_leafset}
use arbore_experiment.Chimera.Handlers.Live.{check_leafset-Safe}
use arbore_experiment.Service.{Service, with_node, publish, unpublish, request_data, handle_message}
use arbore_experiment.Service.Live.{
  ServiceLive, publish-Safe, unpublish-Safe, request_data-Safe, handle_message-Live,
}

-- What happens to a node: a call of its user, a packet that arrives, a HandlePacketJob, and a
-- CheckLeafsetJob with its count.
pub data Event : Type 0 where
  publishes : Key → Data → Event
  unpublishes : Key → Data → Event
  requests : Key → Event
  arrives : Latencies → Host → Packet → Event
  handles : Host → Packet → Event
  checks : ℕ → Event

module _ (sys : System) (tries : ℕ) where
  -- The network takes a packet from a host.
  unfoldable pub take_packet : Latencies → Host → Packet → Service → Step Service
  unfolding with_node
  take_packet l sender p s =
      let n = s.node in
      of_network (
        Loop.receive_packet l (sys.sendto (length n.world.wire)) (now sys n) (now sys n) n.fd sender
          p n.world)
      >>= λ w. returns (with_node s (record n { world = w }))

  unfoldable pub happen : Event → Service → Step Service
  unfolding with_node
  happen (publishes k d) s = publish sys tries k d s
  happen (unpublishes k d) s = unpublish sys tries k d s
  happen (requests k) s = request_data sys tries k s >>= λ r. returns r.0
  happen (arrives l h p) s = take_packet l h p s
  happen (handles h p) s = handle_message sys tries h p s
  happen (checks count) s = check_leafset sys count s.node >>= λ r. returns (with_node s r.0)

  unfoldable pub run : List Event → Service → Step Service
  run [] s = returns s
  run (e ∷ es) s = happen e s >>= run es

  take_packet-Safe :
      (l : Latencies) (h : Host) (p : Packet) (s : Service)
      → ServiceLive s
      → Safe ServiceLive (take_packet l h p s)
  unfolding take_packet with_node of_network ◌>>=◌
  take_packet-Safe l h p s live =
      let n = s.node in
      elim (receive_packet-Ends l (sys.sendto (length n.world.wire)) (now sys n) (now sys n) n.fd h
        p n.world live) [
          | inl (w, e, live') ↦ rw e (returns_safe live')
          | inr e ↦ rw e assertion_safe
        ]

  happen-Safe : (e : Event) (s : Service) → ServiceLive s → Safe ServiceLive (happen e s)
  unfolding happen with_node
  happen-Safe (publishes k d) s live = publish-Safe sys tries k d s live
  happen-Safe (unpublishes k d) s live = unpublish-Safe sys tries k d s live
  happen-Safe (requests k) s live =
      bind-Safe _ _ (request_data-Safe sys tries k s live) (λ r kept. returns_safe kept)
  happen-Safe (arrives l h p) s live = take_packet-Safe l h p s live
  happen-Safe (handles h p) s live = handle_message-Live sys tries h p s live
  happen-Safe (checks count) s live =
      bind-Safe _ _ (check_leafset-Safe sys count s.node live) (λ r kept. returns_safe kept)

  -- If the jobs of the resend list are in memory and no two have one sequence number, then any
  -- sequence of calls of Publish, Unpublish and RequestData, of packets that arrive, of
  -- HandlePacketJobs and of CheckLeafsetJobs, whatever sendto and the clock answer, reads no
  -- deleted job, and where it returns, the resend list is of that kind again. The try of a resend
  -- job is not among the steps.
  pub run-Safe : (es : List Event) (s : Service) → ServiceLive s → Safe ServiceLive (run es s)
  unfolding run
  run-Safe [] s live = returns_safe live
  run-Safe (e ∷ es) s live = bind-Safe _ _ (happen-Safe e s live) (λ s' kept. run-Safe es s' kept)
