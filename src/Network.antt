-- ===== src/Network.antt =====
-- lib/net/network.cpp, job_resend_packet.cpp, job_handle_packet.cpp and hosts_list.cpp: the sending
-- and receiving of packets, with acknowledgements. Every method that changes the state holds the
-- lock of the network, so it is one step. What sendto answers is a parameter of a step; the bytes
-- that it is given are those of Packet.Write.dump_buffer. For a packet that lacks an argument that
-- fails an assertion, and so does Send.
pub mod Hosts
pub mod Loop
pub mod Resend
pub mod Expiry
pub mod Acks
pub mod Wire
pub mod Receive
use arbore_experiment.Base.{
  ℕ, zero, suc, ◌+◌, ◌-◌, ◌*◌, ◌%◌, Bool, true, false, ◌&&◌, ◌||◌, not, Option, none, some, List,
  [], ◌∷◌, ◌++◌, ltb, leb, ◌==◌, if◌then◌else◌, length,
}
use arbore_experiment.Key.{Key, to_bool, zero_key}
use arbore_experiment.Address.{Addr, addr_lt, of_v4}
use arbore_experiment.Host.{
  Host, invalid, ref, Heap, HostInfo, new_host, update, key_of, set_key, update_stat, Latencies,
  update_latency,
}
use arbore_experiment.Netutil.{Read, got, malformed, past_end}
use arbore_experiment.Packet.{Packet, PacketType, requests_ack, is_ack}
use arbore_experiment.Packet.Scan.{header_size, read_packet}
use arbore_experiment.Packet.Write.{dump_buffer}
use arbore_experiment.Scheduler.{
  Job, RepeatType, repeat_none, repeat_periodic, queue, cancel, repeat,
}

-- MAX_RETRY, and RETRANSMIT_INTERVAL in microseconds.
abbrev pub max_retry : ℕ
max_retry = 3

abbrev pub retransmit_interval : ℕ
retransmit_interval = 1000000

-- A ResendPacketJob. The buffer of its packet is left out: it holds what a dump of it gives.
pub record ResendJob : Type 0 where
  pub sock : ℕ
  pub dest : Host
  pub packet : Packet
  pub retry : ℕ
  pub transmit_time : ℕ

-- A job in memory: a ResendPacketJob, a HandlePacketJob, or a CheckLeafsetJob with its count_.
pub data NetJob : Type 0 where
  resend : ResendJob → NetJob
  handle_packet : Host → Packet → NetJob
  check_leafset : ℕ → NetJob

-- The Network, with what it shares: the jobs in memory, none where one was deleted; the queue of
-- the scheduler; the hosts and their list; and what was given to sendto, the last first.
pub record World : Type 0 where
  pub socks : List ℕ
  pub seqend : ℕ
  pub resend_list : List ℕ
  pub jobs : ℕ → Option NetJob
  pub next_job : ℕ
  pub jobs_queue : List Job
  pub heap : Heap
  pub next_host : ℕ
  pub hosts : List (Addr × Host)
  pub wire : List (ℕ × Host × Packet)

-- A step gives a result, reads a job that was deleted, or fails an assertion.
pub data Outcome {ℓ} (A : Type ℓ) : Type ℓ where
  done : A → Outcome A
  dangling : Outcome A
  aborted : Outcome A

abbrev pub put_job : (ℕ → Option NetJob) → ℕ → Option NetJob → ℕ → Option NetJob
put_job jobs a job b = if b == a then job else jobs b

-- The search of the resend list for a sequence number.
pub data Search : Type 0 where
  job_at : ℕ → ResendJob → Search
  absent : Search
  freed : Search

unfoldable pub look : Option NetJob → ℕ → ℕ → Search → Search
look (some (resend j)) seq a rest = if j.packet.seqnum == seq then job_at a j else rest
look _ seq a rest = freed

unfoldable pub find_resend : (ℕ → Option NetJob) → ℕ → List ℕ → Search
find_resend jobs seq [] = absent
find_resend jobs seq (a ∷ l) = look (jobs a) seq a (find_resend jobs seq l)

-- SetSeqNum(seqend++) for a packet without a number. The counter is an uint32_t.
unfoldable pub numbered : ℕ → Packet → Packet
numbered seqend p = if p.seqnum == 0 then record p { seqnum = seqend } else p

unfoldable pub next_seq : ℕ → Packet → ℕ
next_seq seqend p = if p.seqnum == 0 then (seqend + 1) % 4294967296 else seqend

-- A new ResendPacketJob, at the end of the resend list and in the queue.
unfoldable pub add_resend : ℕ → ℕ → ℕ → Host → Packet → World → World
add_resend start now sock host p w = record w {
  resend_list = w.resend_list ++ w.next_job ∷ [];
  jobs = put_job w.jobs w.next_job (
      some (
        resend
          (record { sock = sock; dest = host; packet = p; retry = 0; transmit_time = start })));
  next_job = suc w.next_job;
  jobs_queue =
      queue
        (record {
          address = w.next_job;
          start_time = now + retransmit_interval;
          repeat_type = repeat_periodic;
          repeat_delta = retransmit_interval;
        })
        w.jobs_queue;
}

-- What Send does with the search for a job that retransmits the packet.
unfoldable pub ensure_resend : ℕ → ℕ → ℕ → Host → Packet → World → Search → Outcome (World × Bool)
ensure_resend start now sock host p w (job_at a j) = done (w, true)
ensure_resend start now sock host p w absent = done (add_resend start now sock host p w, true)
ensure_resend start now sock host p w freed = dangling

unfoldable pub is_open : ℕ → List ℕ → Bool
is_open sock [] = false
is_open sock (s ∷ socks) = sock == s || is_open sock socks

-- The part of Send behind sendto, of which the answer is the first argument.
unfoldable pub after_sendto : Bool → ℕ → ℕ → ℕ → Host → Packet → World → Outcome (World × Bool)
after_sendto accepted start now sock host p w =
    let search = find_resend w.jobs p.seqnum w.resend_list in
    if accepted
    then (if requests_ack p then ensure_resend start now sock host p w search else done (w, true))
    else done (record w { heap = update_stat w.heap host 0 }, false)

-- The part of Send behind DumpBuffer, where an assertion of GetArg can fail.
unfoldable pub after_dump :
    Bool → ℕ → ℕ → ℕ → Host → Packet → World → Option (List ℕ × Packet) → Outcome (World × Bool)
unfolding after_sendto
after_dump accepted start now sock host p w none = aborted
after_dump accepted start now sock host p w (some r) = after_sendto accepted start now sock host p w

-- Send.
unfoldable pub send : Bool → ℕ → ℕ → ℕ → Host → Packet → World → Outcome (World × Bool)
unfolding after_dump
send accepted start now sock host p w =
    let p' = numbered w.seqend p in
    let w' = record w { seqend = next_seq w.seqend p; wire = (sock, host, p') ∷ w.wire } in
    if is_open sock w.socks
    then after_dump accepted start now sock host p' w' (dump_buffer p')
    else done (w, false)

-- ResendPacketJob::Start behind its Send: whether to try again.
unfoldable pub retried : ℕ → ResendJob → World × Bool → World × Bool
retried a j (w, sent) =
    let w' = record w {
      jobs = put_job w.jobs a (some (resend (record j { retry = suc j.retry })));
    } in
    if sent
    then (if ltb (suc j.retry) max_retry
        then (w', true)
        else (record w' { heap = update_stat w'.heap j.dest 0 }, false))
    else (w, false)

-- What the scheduler does with the answer of Start: the job goes back to the queue or is deleted.
-- The resend list keeps its pointer.
unfoldable pub settled : ℕ → Job → World × Bool → World
settled now job (w, again) =
    let later = (repeat job.repeat_type now job).0 in
    if again
    then record w { jobs_queue = queue later w.jobs_queue }
    else record w { jobs = put_job w.jobs job.address none }

unfoldable pub map_outcome {ℓ κ} : {A : Type ℓ} {B : Type κ} → (A → B) → Outcome A → Outcome B
map_outcome f (done a) = done (f a)
map_outcome f dangling = dangling
map_outcome f aborted = aborted

-- A round of the scheduler for a resend job that was taken from the queue.
unfoldable pub run_resend : Bool → ℕ → ℕ → Job → ResendJob → World → Outcome World
run_resend accepted start now job j w =
    map_outcome (λ r. settled now job (retried job.address j r))
      (send accepted start now j.sock j.dest j.packet w)

-- scheduler_queue.Cancel, which deletes the job if it finds it.
unfoldable pub is_queued : ℕ → List Job → Bool
is_queued a [] = false
is_queued a (j ∷ jobs) = j.address == a || is_queued a jobs

unfoldable pub cancel_job : ℕ → World → World
cancel_job a w =
    if is_queued a w.jobs_queue
    then record w { jobs_queue = cancel a w.jobs_queue; jobs = put_job w.jobs a none }
    else w

-- erase of the element that the search stopped at.
unfoldable pub erase_resend : ℕ → List ℕ → List ℕ
erase_resend a [] = []
erase_resend a (b ∷ l) = let rest = erase_resend a l in if b == a then l else b ∷ rest

-- An ACK: for a packet that waits for it, the statistics are updated and its job is removed.
unfoldable pub acked : Latencies → ℕ → Host → World → Search → Outcome World
acked l now sender w (job_at a j) =
    let heap = update_latency l (update_stat w.heap sender 1) j.dest j.transmit_time now in
    done (cancel_job a (record w { heap = heap; resend_list = erase_resend a w.resend_list }))
acked l now sender w absent = done w
acked l now sender w freed = dangling

unfoldable pub receive_ack : Latencies → ℕ → Host → Packet → World → Outcome World
unfolding acked
receive_ack l now sender p w = acked l now sender w (find_resend w.jobs p.seqnum w.resend_list)

-- The ACK that is sent for a packet.
unfoldable pub ack_of : Packet → Packet
ack_of p = record p { src = p.dst; dst = p.src; flags = 2 }

-- Queue(new HandlePacketJob): it starts at the time 0.
unfoldable pub queue_packet : Host → Packet → World → World
queue_packet sender p w = record w {
  jobs = put_job w.jobs w.next_job (some (handle_packet sender p));
  next_job = suc w.next_job;
  jobs_queue =
      queue
        (record {
          address = w.next_job;
          start_time = 0;
          repeat_type = repeat_none;
          repeat_delta = 0;
        })
        w.jobs_queue;
}
