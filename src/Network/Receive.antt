-- ===== src/Network/Receive.antt =====
-- The resend list under the packets that Loop of lib/net/network.cpp reads.
use arbore_experiment.Base.{ℕ, ◌≡◌, refl, Bool, ◌⊎◌, inl, inr, Bool-cases, arith}
use arbore_experiment.Host.{Host, Latencies}
use arbore_experiment.Packet.{Packet, is_ack, requests_ack}
use arbore_experiment.Network.{World, Outcome, done, aborted, map_outcome, ack_of, queue_packet}
use arbore_experiment.Network.Loop.{after_ack, receive_packet}
use arbore_experiment.Network.Resend.{IsLive, Live-put_job, send-Ends}
use arbore_experiment.Network.Acks.{receive_ack-AcksLive}

-- A step ends and keeps the list live, or fails an assertion.
abbrev pub StepEnds : Outcome World → Type 0
StepEnds r = ((w : World) × (r ≡ done w) × IsLive w) ⊎ (r ≡ aborted)

queue_packet-IsLive :
    (sender : Host) (p : Packet) (w : World) → IsLive w → IsLive (queue_packet sender p w)
unfolding queue_packet
queue_packet-IsLive sender p w live = Live-put_job _ w.next_job (omega arith) live

pub receive_packet-Ends :
    (l : Latencies) (accepted : Bool) (start now sock : ℕ) (sender : Host) (p : Packet) (w : World)
    → IsLive w
    → StepEnds (receive_packet l accepted start now sock sender p w)
unfolding receive_packet map_outcome after_ack
receive_packet-Ends l accepted start now sock sender p w live = elim (Bool-cases (is_ack p)) [
  | inl ack ↦
      let (w', e, live', gone) = receive_ack-AcksLive l now sender p w live in
      rw ack (inl (w', e, live'))
  | inr other ↦ elim (Bool-cases (requests_ack p)) [
    | inl asks ↦ elim (send-Ends accepted start now sock sender (ack_of p) w live) [
      | inl (w', b, e, live') ↦
          rw (other, asks, e) (inl (_, refl, queue_packet-IsLive sender p w' live'))
      | inr e ↦ rw (other, asks, e) (inr refl)
    ]
    | inr plain ↦ rw (other, plain) (inl (_, refl, queue_packet-IsLive sender p w live))
  ]
]
