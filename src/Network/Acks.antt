-- ===== src/Network/Acks.antt =====
-- What an acknowledgement does to the resend list of lib/net/network.cpp.
use arbore_experiment.Base.{
  ℕ, ◌<◌, ◌≡◌, refl, sym, ap, ◌∙◌, ◌≢◌, true, false, Option, none, some, List, ◌∷◌, ◌==◌, arith,
  inl, inr, Bool-cases,
}
use arbore_experiment.Host.{Host, Heap, Latencies}
use arbore_experiment.Packet.{Packet}
use arbore_experiment.Network.{
  ResendJob, NetJob, resend, World, Outcome, done, put_job, Search, job_at, absent, freed, look,
  find_resend, cancel_job, is_queued, erase_resend, acked, receive_ack,
}
use arbore_experiment.Network.Resend.{Live, live_nil, live_cons, IsLive, Finds, find_resend-Finds}

found_one : {a : ℕ} {j : ResendJob} → job_at a j ≡ absent → ⊥
found_one e = absurd (ground arith)

job_number : Search → ℕ → ℕ
job_number (job_at a j) b = a
job_number _ b = b

job_found : Search → ResendJob → ResendJob
job_found (job_at a j) k = j
job_found _ k = k

job_at-injective : (a b : ℕ) (j k : ResendJob) → job_at b k ≡ job_at a j → (b ≡ a) × (k ≡ j)
unfolding job_number job_found
job_at-injective a b j k e = (ap (λ s. job_number s a) e, ap (λ s. job_found s j) e)

number_of : Option NetJob → ℕ
number_of (some (resend j)) = j.packet.seqnum
number_of _ = 0

other_number :
    (k j : ResendJob) (seq : ℕ)
    → some (resend k) ≡ some (resend j)
    → j.packet.seqnum ≡ seq
    → (k.packet.seqnum == seq) ≡ false
    → ⊥
unfolding number_of
other_number k j seq e its miss =
    let number : k.packet.seqnum ≡ j.packet.seqnum = ap number_of e in absurd (ground arith)

-- What a search finds is in memory under the number.
find_resend-finds :
    {jobs : ℕ → Option NetJob} {bound : ℕ} {l : List ℕ} (seq a : ℕ) (j : ResendJob)
    → Live jobs bound l
    → find_resend jobs seq l ≡ job_at a j
    → (jobs a ≡ some (resend j)) × (j.packet.seqnum ≡ seq) × (a < bound)
unfolding find_resend look
find_resend-finds seq a j live_nil hit = absurd (found_one (sym hit))
find_resend-finds {jobs = jobs} seq a j (live_cons {l = l} b k lt jb distinct live) hit =
    elim (Bool-cases (k.packet.seqnum == seq)) [
      | inl here ↦
          let (b_a, k_j) = job_at-injective a b j k (rw (jb, here) at hit) in
          (
            ap jobs (sym b_a) ∙ jb ∙ ap (λ x. some (resend x)) k_j,
            rw (sym k_j) (ground arith),
            rw (sym b_a) lt,
          )
      | inr miss ↦ find_resend-finds seq a j live (rw (jb, miss) at hit)
    ]

-- A memory that differs in one job at most.
module _ (jobs jobs' : ℕ → Option NetJob) (a : ℕ) (agree : (b : ℕ) → b ≢ a → jobs' b ≡ jobs b) where
  -- A job whose number no element has is none of them.
  stranger :
      (b : ℕ) (j : ResendJob) (l : List ℕ)
      → jobs a ≡ some (resend j)
      → find_resend jobs j.packet.seqnum (b ∷ l) ≡ absent
      → b ≢ a
  unfolding find_resend look
  stranger b j l ja none_there e =
      let same : (j.packet.seqnum == j.packet.seqnum) ≡ true = ground arith in
      found_one (rw (e, ja, same) at none_there)

  absent_behind :
      (b : ℕ) (k : ResendJob) (seq : ℕ) (l : List ℕ)
      → jobs b ≡ some (resend k)
      → find_resend jobs seq (b ∷ l) ≡ absent
      → find_resend jobs seq l ≡ absent
  unfolding find_resend look
  absent_behind b k seq l jb none_there = elim (Bool-cases (k.packet.seqnum == seq)) [
    | inl hit ↦ absurd (found_one (rw (jb, hit) at none_there))
    | inr miss ↦ rw (jb, miss) at none_there
  ]

  find_resend-agree :
      {bound : ℕ} {l : List ℕ} (j : ResendJob) (seq : ℕ)
      → Live jobs bound l
      → jobs a ≡ some (resend j)
      → find_resend jobs j.packet.seqnum l ≡ absent
      → find_resend jobs' seq l ≡ find_resend jobs seq l
  unfolding find_resend
  find_resend-agree j seq live_nil ja none_there = refl
  find_resend-agree j seq (live_cons {l = l} b k lt jb distinct live) ja none_there =
      let same = agree b (stranger b j l ja none_there) in
      let rest =
        find_resend-agree j seq live ja (absent_behind b k j.packet.seqnum l jb none_there) in
      rw (same, rest) refl

  Live-agree :
      {bound : ℕ} {l : List ℕ} (j : ResendJob)
      → Live jobs bound l
      → jobs a ≡ some (resend j)
      → find_resend jobs j.packet.seqnum l ≡ absent
      → Live jobs' bound l
  Live-agree j live_nil ja none_there = live_nil
  Live-agree j (live_cons {l = l} b k lt jb distinct live) ja none_there =
      let behind = absent_behind b k j.packet.seqnum l jb none_there in
      live_cons b k lt (agree b (stranger b j l ja none_there) ∙ jb)
        (find_resend-agree j k.packet.seqnum live ja behind ∙ distinct)
        (Live-agree j live ja behind)

  -- What the removal of the job a from a list does to its searches.
  abbrev Erased : ℕ → ℕ → List ℕ → Type 0
  Erased bound seq l =
      Live jobs' bound (erase_resend a l)
      × (find_resend jobs' seq (erase_resend a l) ≡ absent)
      × ((s : ℕ) → find_resend jobs s l ≡ absent → find_resend jobs' s (erase_resend a l) ≡ absent)

  found_here :
      {bound : ℕ} (k : ResendJob) {l : List ℕ}
      → jobs a ≡ some (resend k)
      → find_resend jobs k.packet.seqnum l ≡ absent
      → Live jobs bound l
      → Erased bound k.packet.seqnum (a ∷ l)
  unfolding erase_resend
  found_here k {l} ja distinct live =
      let same : (a == a) ≡ true = ground arith in
      rw same (
        Live-agree k live ja distinct,
        find_resend-agree k k.packet.seqnum live ja distinct ∙ distinct,
        λ s none_there.
            find_resend-agree k s live ja distinct ∙ absent_behind a k s l ja none_there,
      )

  found_behind :
      {bound : ℕ} (b : ℕ) (k : ResendJob) (seq : ℕ) (l : List ℕ)
      → b < bound
      → b ≢ a
      → jobs b ≡ some (resend k)
      → (k.packet.seqnum == seq) ≡ false
      → find_resend jobs k.packet.seqnum l ≡ absent
      → Erased bound seq l
      → Erased bound seq (b ∷ l)
  unfolding erase_resend find_resend look
  found_behind b k seq l lt other jb miss distinct (live, gone, rest) =
      let differ : (b == a) ≡ false = ground arith in
      let there = agree b other ∙ jb in
      let behind : (s : ℕ)
          → find_resend jobs s (b ∷ l) ≡ absent
          → find_resend jobs' s (b ∷ erase_resend a l) ≡ absent =
        λ s none_there. rw there (elim (Bool-cases (k.packet.seqnum == s)) [
          | inl hit ↦ absurd (found_one (rw (jb, hit) at none_there))
          | inr other_number ↦ rw other_number (rest s (rw (jb, other_number) at none_there))
        ]) in
      rw differ
        (live_cons b k lt there (rest k.packet.seqnum distinct) live, rw (there, miss) gone, behind)

  -- The search stops at an element that is not a, or is a itself.
  erase_resend-Erased :
      {bound : ℕ} {l : List ℕ} (j : ResendJob) (seq : ℕ)
      → Live jobs bound l
      → jobs a ≡ some (resend j)
      → j.packet.seqnum ≡ seq
      → find_resend jobs seq l ≡ job_at a j
      → Erased bound seq l
  unfolding find_resend look
  erase_resend-Erased j seq live_nil ja its hit = absurd (found_one (sym hit))
  erase_resend-Erased j seq (live_cons {l = l} b k lt jb distinct live) ja its hit =
      let not_here : b ≡ a → (k.packet.seqnum == seq) ≡ false → ⊥ =
        λ e miss. other_number k j seq (sym jb ∙ ap jobs e ∙ ja) its miss in
      elim (Bool-cases (k.packet.seqnum == seq)) [
        | inl here ↦
            let (b_a, k_j) = job_at-injective a b j k (rw (jb, here) at hit) in
            rw (b_a, sym its) (found_here j ja (rw k_j at distinct) live)
        | inr miss ↦
            found_behind b k seq l lt (λ e. not_here e miss) jb miss distinct
              (erase_resend-Erased j seq live ja its (rw (jb, miss) at hit))
      ]

-- The list after an ACK: nothing waits for its number, and no other job is lost.
abbrev pub AcksLive : ℕ → Outcome World → Type 0
AcksLive seq r =
    (w : World) × (r ≡ done w) × IsLive w × (find_resend w.jobs seq w.resend_list ≡ absent)

cancel_job-AcksLive :
    (w : World) (heap : Heap) (a seq : ℕ) (j : ResendJob)
    → IsLive w
    → find_resend w.jobs seq w.resend_list ≡ job_at a j
    → AcksLive seq
        (done (cancel_job a (record w { heap = heap; resend_list = erase_resend a w.resend_list })))
unfolding cancel_job
cancel_job-AcksLive w heap a seq j live hit =
    let (ja, its, lt) = find_resend-finds seq a j live hit in
    elim (Bool-cases (is_queued a w.jobs_queue)) [
      | inl queued ↦
          let (live', gone, rest) =
            erase_resend-Erased w.jobs (put_job w.jobs a none) a (λ b other. ground arith) j seq
              live ja its hit in
          rw queued (_, refl, live', gone)
      | inr missing ↦
          let (live', gone, rest) =
            erase_resend-Erased w.jobs w.jobs a (λ b other. refl) j seq live ja its hit in
          rw missing (_, refl, live', gone)
    ]

acked-AcksLive :
    (l : Latencies) (now : ℕ) (sender : Host) (seq : ℕ) (w : World)
    → IsLive w
    → (s : Search) → find_resend w.jobs seq w.resend_list ≡ s
    → Finds s
    → AcksLive seq (acked l now sender w s)
unfolding acked
acked-AcksLive l now sender seq w live (job_at a j) e f = cancel_job-AcksLive w _ a seq j live e
acked-AcksLive l now sender seq w live absent e f = (w, refl, live, e)
acked-AcksLive l now sender seq w live freed e f = elim f [ ]

-- If the jobs of the resend list are in memory and no two have one sequence number, then the
-- handling of an ACK returns, leaves a resend list of that kind, and no job of it has the sequence
-- number of the ACK.
pub receive_ack-AcksLive :
    (l : Latencies) (now : ℕ) (sender : Host) (p : Packet) (w : World)
    → IsLive w
    → AcksLive p.seqnum (receive_ack l now sender p w)
unfolding receive_ack
receive_ack-AcksLive l now sender p w live =
    acked-AcksLive l now sender p.seqnum w live _ refl (find_resend-Finds p.seqnum live)
