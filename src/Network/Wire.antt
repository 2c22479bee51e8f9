-- ===== src/Network/Wire.antt =====
-- What Send of lib/net/network.cpp gives to sendto.
use arbore_experiment.Base.{ℕ, ◌≡◌, refl, Bool, true, false, List, ◌∷◌, inl, inr, Bool-cases}
use arbore_experiment.Host.{Host}
use arbore_experiment.Packet.{Packet, requests_ack}
use arbore_experiment.Network.{
  World, Outcome, done, Search, job_at, absent, freed, numbered, add_resend, ensure_resend, is_open,
  after_sendto, after_dump, send,
}
use arbore_experiment.Network.Resend.{
  IsLive, Finds, find_resend-Finds, HasArgs, dump_buffer-numbered,
}

-- A step ends with this on the wire.
abbrev pub Wires : List (ℕ × Host × Packet) → Outcome (World × Bool) → Type 0
Wires wire r = (w : World) × (b : Bool) × (r ≡ done (w, b)) × (w.wire ≡ wire)

ensure_resend-Wires :
    (start now sock : ℕ) (host : Host) (p : Packet) (w : World) (s : Search)
    → Finds s
    → Wires w.wire (ensure_resend start now sock host p w s)
unfolding ensure_resend add_resend
ensure_resend-Wires start now sock host p w (job_at a j) f = (w, true, refl, refl)
ensure_resend-Wires start now sock host p w absent f = (_, true, refl, refl)
ensure_resend-Wires start now sock host p w freed f = elim f [ ]

pub send-Wires :
    (accepted : Bool) (start now sock : ℕ) (host : Host) (p : Packet) (w : World)
    → IsLive w
    → is_open sock w.socks ≡ true
    → HasArgs p
    → Wires ((sock, host, numbered w.seqend p) ∷ w.wire) (send accepted start now sock host p w)
unfolding send after_dump after_sendto
send-Wires accepted start now sock host p w live opened has =
    let (r, e) = dump_buffer-numbered w.seqend p has in
    elim (Bool-cases accepted) [
      | inr refused ↦ rw (opened, e, refused) (_, false, refl, refl)
      | inl taken ↦ elim (Bool-cases (requests_ack (numbered w.seqend p))) [
        | inr plain ↦ rw (opened, e, taken, plain) (_, true, refl, refl)
        | inl asks ↦
            rw (opened, e, taken, asks)
              (ensure_resend-Wires start now sock host (numbered w.seqend p) _ _
                (find_resend-Finds (numbered w.seqend p).seqnum live))
      ]
    ]
