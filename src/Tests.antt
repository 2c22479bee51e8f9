-- ===== src/Tests.antt =====
-- The hosts of the tests: the host p has the key whose first digit is p % 16 and whose last digits
-- count p / 16.
mod Keys
mod Hosts
mod Leafsets
mod Tables
mod Routings
mod Schedulers
mod Codecs
mod Storages
mod Packets
mod Contents
mod Networks
mod Nodes
mod Services
mod Trees
mod Configs
mod Sessions
use arbore_experiment.Base.{ℕ, ◌*◌, ◌/◌, ◌%◌, ◌≡◌, refl, arith, List, [], ◌∷◌, replicate}
use arbore_experiment.Key.{Key, IsKey}
use arbore_experiment.Address.{Addr}
use arbore_experiment.Host.{Host, ref, Heap, HostInfo, new_host}
use arbore_experiment.Leafset.Invariant.{ValidKeys}

abbrev pub key_at : ℕ → Key
key_at p = (p / 16) % 65536 ∷ 0 ∷ 0 ∷ 0 ∷ ((p % 16) * 268435456) ∷ []

pub key_at-IsKey : (p : ℕ) → IsKey (key_at p)
key_at-IsKey p = record { sized = refl; words = omega arith }

abbrev pub addr_at : ℕ → Addr
addr_at p = record { ip = 0 ∷ 0 ∷ 0 ∷ p ∷ []; port = 80; key = key_at p }

abbrev pub heap : Heap
heap p = record {
  ip = 0 ∷ 0 ∷ 0 ∷ p ∷ [];
  port = 80;
  key = key_at p;
  failure_time = 0;
  latency = 7;
  success_win = replicate 20 1;
  success_win_index = 0;
  success_avg = 20;
}

pub heap-ValidKeys : ValidKeys heap
heap-ValidKeys p = key_at-IsKey p

abbrev pub me : Host
me = ref 8
