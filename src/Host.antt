-- ===== src/Host.antt =====
-- lib/net/host.cpp and host.h. A Host is a pointer to a shared _Host or null, so the state of the
-- hosts is a heap, and what is read of a host is read from the heap at that time.
pub mod Stats
use arbore_experiment.Base.{
  ℕ, ◌-◌, suc, ◌+◌, ◌/◌, ◌%◌, Bool, true, false, List, [], ◌∷◌, ◌++◌, ltb, ◌==◌, if◌then◌else◌, set,
  replicate,
}
use arbore_experiment.Key.{Key, zero_key}
use arbore_experiment.Address.{Addr}

pub data Host : Type 0 where
  invalid : Host
  ref : ℕ → Host

-- SUCCESS_WINDOW.
abbrev success_window : ℕ
success_window = 20

-- The members of _Host that the program reads; ip, port and key are those of its pf_addr. The floats and doubles are only compared: the
-- success average counts twentieths, the latency is the order of the double among the doubles
-- that are not negative, and times are in microseconds.
pub record HostInfo : Type 0 where
  pub ip : List ℕ
  pub port : ℕ
  pub key : Key
  pub failure_time : ℕ
  pub latency : ℕ
  pub success_win : List ℕ
  pub success_win_index : ℕ
  pub success_avg : ℕ

abbrev pub Heap : Type 0
Heap = ℕ → HostInfo

-- The constructor of _Host: half of the window counts as successes.
unfoldable pub new_host : Addr → HostInfo
new_host a = record {
  ip = a.ip;
  port = a.port;
  key = a.key;
  failure_time = 0;
  latency = 0;
  success_win = replicate (success_window / 2) 0 ++ replicate (success_window / 2) 1;
  success_win_index = 0;
  success_avg = success_window / 2;
}

-- The loop that adds the window up.
unfoldable pub total : List ℕ → ℕ
total [] = 0
total (s ∷ ss) = s + total ss

-- _Host::UpdateStat.
unfoldable pub update_stat_info : HostInfo → ℕ → HostInfo
update_stat_info h success =
    let win = set h.success_win (h.success_win_index % success_window) success in
    record h {
      success_win = win;
      success_win_index = suc h.success_win_index;
      success_avg = total win;
    }

-- operator== compares the pointers, operator bool tests for null.
unfoldable pub same : Host → Host → Bool
same invalid invalid = true
same (ref p) (ref q) = p == q
same _ _ = false

unfoldable pub is_valid : Host → Bool
is_valid invalid = false
is_valid (ref p) = true

-- A write to the _Host at a pointer.
unfoldable pub update : Heap → ℕ → HostInfo → Heap
update heap p info q = if q == p then info else heap q

module _ (heap : Heap) where
  -- GetKey, GetSuccessAvg, GetLatency and GetFailureTime.
  unfoldable pub key_of : Host → Key
  key_of invalid = zero_key
  key_of (ref p) = (heap p).key

  unfoldable pub success_avg_of : Host → ℕ
  success_avg_of invalid = 0
  success_avg_of (ref p) = (heap p).success_avg

  unfoldable pub latency_of : Host → ℕ
  latency_of invalid = 0
  latency_of (ref p) = (heap p).latency

  unfoldable pub failure_time_of : Host → ℕ
  failure_time_of invalid = 0
  failure_time_of (ref p) = (heap p).failure_time

  -- SetKey, SetFailureTime and UpdateStat do nothing on a null host.
  unfoldable pub set_key : Host → Key → Heap
  set_key invalid k = heap
  set_key (ref p) k = update heap p (record (heap p) { key = k })

  unfoldable pub set_failure_time : Host → ℕ → Heap
  set_failure_time invalid f = heap
  set_failure_time (ref p) f = update heap p (record (heap p) { failure_time = f })

  unfoldable pub update_stat : Host → ℕ → Heap
  update_stat invalid success = heap
  update_stat (ref p) success = update heap p (update_stat_info (heap p) success)

  -- GetAddr: pf_addr() for a null host.
  unfoldable pub addr_of : Host → Addr
  addr_of invalid = record { ip = 0 ∷ 0 ∷ 0 ∷ 0 ∷ []; port = 0; key = zero_key }
  addr_of (ref p) = record { ip = (heap p).ip; port = (heap p).port; key = (heap p).key }

-- What the doubles of UpdateLatency are in the order of the latencies: the bound 0.00001, the
-- latency of an elapsed time, and the weighted average of a latency and a new one.
pub record Latencies : Type 0 where
  pub tiny : ℕ
  pub of_time : ℕ → ℕ
  pub average : ℕ → ℕ → ℕ

-- UpdateLatency of the time between two readings of the clock, which is ignored if it is negative.
unfoldable pub update_latency_info : Latencies → HostInfo → ℕ → ℕ → HostInfo
update_latency_info l h from to =
    let sample = l.of_time (to - from) in
    if ltb to from
    then h
    else if ltb h.latency l.tiny
    then record h { latency = sample }
    else record h { latency = l.average h.latency sample }

unfoldable pub update_latency : Latencies → Heap → Host → ℕ → ℕ → Heap
update_latency l heap invalid from to = heap
update_latency l heap (ref p) from to = update heap p (update_latency_info l (heap p) from to)
