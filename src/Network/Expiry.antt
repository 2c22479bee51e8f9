-- ===== src/Network/Expiry.antt =====
-- The last try of a resend job: lib/net/job_resend_packet.cpp with the resend list of network.cpp.
use arbore_experiment.Base.{ℕ, suc, ◌≡◌, refl, true, false, none, some, List, ◌∷◌, ltb, ◌==◌, arith}
use arbore_experiment.Host.{Host}
use arbore_experiment.Packet.{Packet, requests_ack}
use arbore_experiment.Packet.Write.{dump_buffer}
use arbore_experiment.Scheduler.{Job}
use arbore_experiment.Network.{
  ResendJob, resend, World, done, dangling, look, find_resend, numbered, next_seq, ensure_resend,
  is_open, after_sendto, after_dump, send, retried, settled, map_outcome, run_resend, max_retry,
}
use arbore_experiment.Network.Resend.{HasArgs, dump_buffer-numbered}

-- A send of a packet that requests an ACK reads the first job of the list.
send_freed :
    (start now sock : ℕ) (host : Host) (p : Packet) (w : World) (a : ℕ) (l : List ℕ)
    → w.resend_list ≡ a ∷ l
    → w.jobs a ≡ none
    → is_open sock w.socks ≡ true
    → requests_ack (numbered w.seqend p) ≡ true
    → HasArgs p
    → send true start now sock host p w ≡ dangling
unfolding send after_dump after_sendto find_resend look ensure_resend
send_freed start now sock host p w a l first gone opened asks has =
    let (r, e) = dump_buffer-numbered w.seqend p has in rw (opened, e, asks, first, gone) refl

send_again :
    (start now : ℕ) (a : ℕ) (j : ResendJob) (w : World) (l : List ℕ)
    → w.resend_list ≡ a ∷ l
    → w.jobs a ≡ some (resend j)
    → is_open j.sock w.socks ≡ true
    → (j.packet.seqnum == 0) ≡ false
    → requests_ack j.packet ≡ true
    → HasArgs j.packet
    → send true start now j.sock j.dest j.packet w
      ≡ done (record w { wire = (j.sock, j.dest, j.packet) ∷ w.wire }, true)
unfolding send after_dump after_sendto find_resend look ensure_resend numbered next_seq
send_again start now a j w l first here opened has_number asks has =
    let (r, e) = dump_buffer-numbered w.seqend j.packet has in
    let e' : dump_buffer j.packet ≡ some r = rw has_number at e in
    let same : (j.packet.seqnum == j.packet.seqnum) ≡ true = ground arith in
    rw (has_number, opened, e', asks, first, here, same) refl

-- A packet that no send can look behind.
abbrev pub Blocked : World → Type 0
Blocked w =
    (start now sock : ℕ) (host : Host) (p : Packet)
    → is_open sock w.socks ≡ true
    → requests_ack (numbered w.seqend p) ≡ true
    → HasArgs p
    → send true start now sock host p w ≡ dangling

-- If the first job of the resend list runs for the last time, sendto takes its packet, the socket
-- is open, and the packet has a sequence number, requests an ACK and has its arguments, then the
-- step ends in a state in which every Send on an open socket of a packet that requests an ACK and
-- has its arguments, and which sendto takes, reads a deleted job.
pub run_resend-Blocked :
    (start now : ℕ) (job : Job) (j : ResendJob) (w : World) (l : List ℕ)
    → w.resend_list ≡ job.address ∷ l
    → w.jobs job.address ≡ some (resend j)
    → is_open j.sock w.socks ≡ true
    → (j.packet.seqnum == 0) ≡ false
    → requests_ack j.packet ≡ true
    → HasArgs j.packet
    → ltb (suc j.retry) max_retry ≡ false
    → (w' : World) × (run_resend true start now job j w ≡ done w') × Blocked w'
unfolding run_resend map_outcome retried settled
run_resend-Blocked start now job j w l first here opened has_number asks has last_try =
    let same : (job.address == job.address) ≡ true = ground arith in
    rw (send_again start now job.address j w l first here opened has_number asks has, last_try)
      (
        _,
        refl,
        λ start' now' sock host p opened' asks' has'.
            send_freed start' now' sock host p _ job.address l first (rw same refl) opened' asks'
              has',
      )
