-- ===== src/Network/Resend.antt =====
-- The resend list of lib/net/network.cpp: its jobs are in memory and no two have one sequence number.
use arbore_experiment.Base.{
  ℕ, suc, ◌≤◌, ◌<◌, ◌≡◌, refl, ◌∙◌, ◌≢◌, Bool, true, false, Option, none, some, List, [], ◌∷◌, ◌++◌,
  ◌==◌, arith, ◌⊎◌, inl, inr, Bool-cases,
}
use arbore_experiment.Host.{Host}
use arbore_experiment.Packet.{Packet, requests_ack}
use arbore_experiment.Packet.Write.{dump_args, built, build_data, dumped, dump_buffer}
use arbore_experiment.Network.{
  ResendJob, NetJob, resend, World, Outcome, done, put_job, Search, job_at, absent, freed, look,
  find_resend, numbered, next_seq, add_resend, ensure_resend, is_open, after_sendto, after_dump,
  send, aborted,
}

-- Of each job of the list, the pointer lies below the bound, and no later job has its number.
pub data Live (jobs : ℕ → Option NetJob) (bound : ℕ) : List ℕ → Type 0 where
  live_nil : Live jobs bound []
  live_cons :
      {l : List ℕ} (a : ℕ) (j : ResendJob)
      → a < bound
      → jobs a ≡ some (resend j)
      → find_resend jobs j.packet.seqnum l ≡ absent
      → Live jobs bound l
      → Live jobs bound (a ∷ l)

abbrev pub IsLive : World → Type 0
IsLive w = Live w.jobs w.next_job w.resend_list

-- A search of a live list does not come to a job that was deleted.
pub data Finds : Search → Type 0 where
  finds_job : (a : ℕ) (j : ResendJob) → Finds (job_at a j)
  finds_none : Finds absent

pub find_resend-Finds :
    {jobs : ℕ → Option NetJob} {bound : ℕ} {l : List ℕ} (seq : ℕ)
    → Live jobs bound l
    → Finds (find_resend jobs seq l)
unfolding find_resend look
find_resend-Finds seq live_nil = finds_none
find_resend-Finds seq (live_cons a j lt is distinct live) =
    rw is (elim (Bool-cases (j.packet.seqnum == seq)) [
      | inl hit ↦ rw hit (finds_job a j)
      | inr miss ↦ rw miss (find_resend-Finds seq live)
    ])

-- A write at the bound or above changes no search.
find_resend-put_job :
    {jobs : ℕ → Option NetJob} {bound : ℕ} {l : List ℕ} (job : Option NetJob) (seq b : ℕ)
    → bound ≤ b
    → Live jobs bound l
    → find_resend (put_job jobs b job) seq l ≡ find_resend jobs seq l
unfolding find_resend
find_resend-put_job job seq b h live_nil = refl
find_resend-put_job {jobs = jobs} job seq b h (live_cons a j lt is distinct live) =
    let e : put_job jobs b job a ≡ jobs a = ground arith in
    rw (e, find_resend-put_job job seq b h live) refl

find_resend-append :
    {jobs : ℕ → Option NetJob} {bound : ℕ} {l : List ℕ} (seq b : ℕ) (k : ResendJob)
    → Live jobs bound l
    → jobs b ≡ some (resend k)
    → find_resend jobs seq l ≡ absent
    → k.packet.seqnum ≢ seq
    → find_resend jobs seq (l ++ b ∷ []) ≡ absent
unfolding find_resend look
find_resend-append seq b k live_nil is none_yet other = rw is (ground arith)
find_resend-append seq b k (live_cons {l = l} a j lt ja distinct live) is none_yet other =
    elim (Bool-cases (j.packet.seqnum == seq)) [
      | inl hit ↦ absurd (found_one (rw (ja, hit) at none_yet))
      | inr miss ↦
          rw (ja, miss) (find_resend-append seq b k live is (rw (ja, miss) at none_yet) other)
    ]
  where
    found_one : job_at a j ≡ absent → ⊥
    found_one e = absurd (ground arith)

pub Live-put_job :
    {jobs : ℕ → Option NetJob} {bound : ℕ} {l : List ℕ} (job : Option NetJob) (b : ℕ)
    → bound ≤ b
    → Live jobs bound l
    → Live (put_job jobs b job) (suc b) l
Live-put_job job b h live_nil = live_nil
Live-put_job {jobs = jobs} job b h (live_cons a j lt is distinct live) =
    let e : put_job jobs b job a ≡ jobs a = ground arith in
    live_cons a j (omega arith) (e ∙ is)
      (find_resend-put_job job j.packet.seqnum b h live ∙ distinct) (Live-put_job job b h live)

-- The new job at the end, with a number that no other has.
Live-append :
    {jobs : ℕ → Option NetJob} {bound : ℕ} {l : List ℕ} (b : ℕ) (k : ResendJob)
    → b < bound
    → Live jobs bound l
    → jobs b ≡ some (resend k)
    → find_resend jobs k.packet.seqnum l ≡ absent
    → Live jobs bound (l ++ b ∷ [])
unfolding find_resend
Live-append b k lt live_nil is none_yet = live_cons b k lt is refl live_nil
Live-append {jobs = jobs} {bound = bound} b k lt (live_cons {l = l} a j lt' ja distinct live) is
      none_yet =
    elim (Bool-cases (j.packet.seqnum == k.packet.seqnum)) [
      | inl hit ↦ absurd (unfold look in found_one (rw (ja, hit) at none_yet))
      | inr miss ↦
          live_cons a j lt' ja
            (find_resend-append j.packet.seqnum b k live is distinct (λ e. ground arith))
            (Live-append b k lt live is (unfold look in rw (ja, miss) at none_yet))
    ]
  where
    found_one : job_at a j ≡ absent → ⊥
    found_one e = absurd (ground arith)

add_resend-IsLive :
    (start now sock : ℕ) (host : Host) (p : Packet) (w : World)
    → IsLive w
    → find_resend w.jobs p.seqnum w.resend_list ≡ absent
    → IsLive (add_resend start now sock host p w)
unfolding add_resend
add_resend-IsLive start now sock host p w live none_yet =
    let k : ResendJob = record {
      sock = sock;
      dest = host;
      packet = p;
      retry = 0;
      transmit_time = start;
    } in
    let job = some (resend k) in
    let put : put_job w.jobs w.next_job job w.next_job ≡ job = ground arith in
    Live-append w.next_job k (omega arith) (Live-put_job job w.next_job (omega arith) live) put
      (find_resend-put_job job p.seqnum w.next_job (omega arith) live ∙ none_yet)

-- A step ends, and keeps the list live.
abbrev pub SendsLive : Outcome (World × Bool) → Type 0
SendsLive r = (w : World) × (b : Bool) × (r ≡ done (w, b)) × IsLive w

ensure_resend-IsLive :
    (start now sock : ℕ) (host : Host) (p : Packet) (w : World)
    → IsLive w
    → (s : Search) → find_resend w.jobs p.seqnum w.resend_list ≡ s
    → Finds s
    → SendsLive (ensure_resend start now sock host p w s)
unfolding ensure_resend
ensure_resend-IsLive start now sock host p w live (job_at a j) e f = (w, true, refl, live)
ensure_resend-IsLive start now sock host p w live absent e f = (
  add_resend start now sock host p w,
  true,
  refl,
  add_resend-IsLive start now sock host p w live e,
)
ensure_resend-IsLive start now sock host p w live freed e f = elim f [ ]

after_sendto-IsLive :
    (accepted : Bool) (start now sock : ℕ) (host : Host) (p : Packet) (w : World)
    → IsLive w
    → SendsLive (after_sendto accepted start now sock host p w)
unfolding after_sendto
after_sendto-IsLive accepted start now sock host p w live = elim (Bool-cases accepted) [
  | inr refused ↦ rw refused (_, false, refl, live)
  | inl taken ↦ elim (Bool-cases (requests_ack p)) [
    | inr plain ↦ rw (taken, plain) (_, true, refl, live)
    | inl asks ↦
        rw (taken, asks)
          (ensure_resend-IsLive start now sock host p w live _ refl
            (find_resend-Finds p.seqnum live))
  ]
]

-- The packet has an argument of each type that its own type names.
abbrev pub HasArgs : Packet → Type 0
HasArgs p = (bytes : List ℕ) × (dump_args p.type.arg_types p.args ≡ some bytes)

-- DumpBuffer fails no assertion for it, with a new sequence number too.
pub dump_buffer-numbered :
    (seqend : ℕ) (p : Packet)
    → HasArgs p
    → (r : List ℕ × Packet) × (dump_buffer (numbered seqend p) ≡ some r)
unfolding numbered dump_buffer dumped build_data built
dump_buffer-numbered seqend p (bytes, e) = elim (Bool-cases (p.seqnum == 0)) [
  | inl fresh ↦ rw fresh (dumps (record p { seqnum = seqend }) e p.buffer)
  | inr old ↦ rw old (dumps p e p.buffer)
]
  where
    dumps :
        (q : Packet)
        → dump_args q.type.arg_types q.args ≡ some bytes
        → (b : Option (List ℕ)) → (r : List ℕ × Packet) × (dumped (build_data q b) ≡ some r)
    dumps q has none = rw has (_, refl)
    dumps q has (some l) = (_, refl)

-- Any packet: the step ends and keeps the list live, or fails an assertion.
abbrev pub SendEnds : Outcome (World × Bool) → Type 0
SendEnds r = SendsLive r ⊎ (r ≡ aborted)

pub send-Ends :
    (accepted : Bool) (start now sock : ℕ) (host : Host) (p : Packet) (w : World)
    → IsLive w
    → SendEnds (send accepted start now sock host p w)
unfolding send after_dump
send-Ends accepted start now sock host p w live = elim (Bool-cases (is_open sock w.socks)) [
  | inr closed ↦ rw closed (inl (w, false, refl, live))
  | inl opened ↦ rw opened (ends (dump_buffer (numbered w.seqend p)))
]
  where
    p' : Packet
    p' = numbered w.seqend p

    w' : World
    w' = record w { seqend = next_seq w.seqend p; wire = (sock, host, p') ∷ w.wire }

    ends :
        (o : Option (List ℕ × Packet)) → SendEnds (after_dump accepted start now sock host p' w' o)
    ends none = inr refl
    ends (some r) = inl (after_sendto-IsLive accepted start now sock host p' w' live)

-- If the jobs of the resend list are in memory and no two have one sequence number, and the packet
-- has an argument of each type that its own type names, then Send returns, whatever sendto
-- answers, and leaves a resend list of that kind.
pub send-IsLive :
    (accepted : Bool) (start now sock : ℕ) (host : Host) (p : Packet) (w : World)
    → IsLive w
    → HasArgs p
    → SendsLive (send accepted start now sock host p w)
unfolding send after_dump
send-IsLive accepted start now sock host p w live has =
    let (r, e) = dump_buffer-numbered w.seqend p has in
    elim (Bool-cases (is_open sock w.socks)) [
      | inr closed ↦ rw closed (w, false, refl, live)
      | inl opened ↦
          rw (opened, e)
            (after_sendto-IsLive accepted start now sock host (numbered w.seqend p) _ live)
    ]
