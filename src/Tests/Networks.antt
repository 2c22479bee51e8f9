-- ===== src/Tests/Networks.antt =====
-- Runs of lib/net/network.cpp.
use arbore_experiment.Base.{ℕ, zero, suc, ◌≡◌, refl, arith, [], ◌∷◌, true, none, some}
use arbore_experiment.Host.{ref, Latencies}
use arbore_experiment.Packet.{Packet, new_packet, requests_ack}
use arbore_experiment.Packet.Write.{
  dump_args, built, build_data, header, buffer_bytes, with_header, dumped, dump_buffer,
}
use arbore_experiment.Messages.{ping_type}
use arbore_experiment.Scheduler.{Job, repeat_periodic, queue, cancel, repeat}
use arbore_experiment.Network.{
  ResendJob, resend, World, done, look, find_resend, numbered, next_seq, add_resend, ensure_resend,
  is_open, after_sendto, after_dump, send, retried, settled, map_outcome, run_resend, is_queued,
  cancel_job, erase_resend, acked, receive_ack, ack_of, queue_packet,
}
use arbore_experiment.Network.Hosts.{find_host, host_or_new, get_host, learn_key}
use arbore_experiment.Network.Loop.{after_ack, receive_packet}
use arbore_experiment.Network.Resend.{live_nil, live_cons, IsLive, SendsLive, send-IsLive}
use arbore_experiment.Network.Acks.{AcksLive, receive_ack-AcksLive}
use arbore_experiment.Network.Expiry.{Blocked, run_resend-Blocked}
use arbore_experiment.Tests.{heap, key_at}

pub program : Unit {0}
unfolding look find_resend numbered next_seq add_resend ensure_resend is_open after_sendto
    after_dump send dump_buffer dumped build_data built dump_args with_header buffer_bytes header
    retried settled map_outcome run_resend is_queued cancel_job erase_resend acked receive_ack
    ack_of queue_packet find_host host_or_new get_host learn_key after_ack receive_packet new_packet
    requests_ack ping_type queue cancel repeat
program = tt

abbrev pub packet : ℕ → Packet
packet seqnum = record {
  type = record {
    number = 7;
    handler = arbore_experiment.Packet.handler_chimera;
    def_flags = 1;
    arg_types = [];
  };
  size = 0;
  src = key_at 8;
  dst = key_at 9;
  flags = 1;
  seqnum = seqnum;
  args = [];
  buffer = none;
}

abbrev pub waiting : ResendJob
waiting = record { sock = 3; dest = ref 9; packet = packet 5; retry = 2; transmit_time = 0 }

abbrev pub due : Job
due = record { address = 0; start_time = 10; repeat_type = repeat_periodic; repeat_delta = 1000000 }

-- A network in which the packet 5 waits for its ACK.
abbrev pub world : World
world = record {
  socks = 3 ∷ [];
  seqend = 6;
  resend_list = 0 ∷ [];
  jobs = λ a. elim a [ zero ↦ some (resend waiting) | suc b ↦ none ];
  next_job = 1;
  jobs_queue = due ∷ [];
  heap = heap;
  next_host = 100;
  hosts = [];
  wire = [];
}

pub world-IsLive : IsLive world
unfolding find_resend
world-IsLive = live_cons 0 waiting (omega arith) refl refl live_nil

abbrev latencies : Latencies
latencies = record { tiny = 1; of_time = λ t. t; average = λ a b. a }

send-IsLive_example : SendsLive (send true 0 0 3 (ref 9) (packet 0) world)
unfolding dump_args
send-IsLive_example = send-IsLive true 0 0 3 (ref 9) (packet 0) world world-IsLive (_, refl)

receive_ack-AcksLive_example : AcksLive 5 (receive_ack latencies 7 (ref 9) (packet 5) world)
receive_ack-AcksLive_example =
    receive_ack-AcksLive latencies 7 (ref 9) (packet 5) world world-IsLive

-- The job at 0 was tried twice, and has its last try.
run_resend-Blocked_example :
    (w : World) × (run_resend true 20 20 due waiting world ≡ done w) × Blocked w
unfolding is_open requests_ack dump_args
run_resend-Blocked_example =
    run_resend-Blocked 20 20 due waiting world [] refl refl refl refl refl (_, refl) refl
