-- ===== src/Tests/Hosts.antt =====
-- Runs of lib/net/host.cpp.
use arbore_experiment.Base.{◌≡◌, refl, arith, [], ◌∷◌, ◌++◌, drop}
use arbore_experiment.Host.{
  HostInfo, ref, new_host, total, update_stat_info, update, update_stat, success_avg_of,
}
use arbore_experiment.Host.Stats.{
  IsStat, ordered, new_host-IsStat, update_stat_info-IsStat, update_stat_info-ordered,
}
use arbore_experiment.Tests.{addr_at, heap}

program : Unit {0}
unfolding new_host total update_stat_info update update_stat success_avg_of
program = tt

abbrev fresh : HostInfo
fresh = new_host (addr_at 3)

-- The first results take the place of failures, the later ones that of successes.
averages :
    (fresh.success_avg ≡ 10)
    × ((update_stat_info fresh 1).success_avg ≡ 11)
    × ((update_stat_info fresh 0).success_avg ≡ 10)
    × (success_avg_of (update_stat heap (ref 3) 0) (ref 3) ≡ 19)
unfolding program
averages = (refl, refl, refl, refl)

fresh-IsStat : IsStat (update_stat_info fresh 1)
fresh-IsStat = update_stat_info-IsStat fresh 1 (omega arith) (new_host-IsStat (addr_at 3))

update_stat_info-ordered_example :
    ordered (update_stat_info fresh 1) ≡ drop 1 (ordered fresh) ++ 1 ∷ []
update_stat_info-ordered_example = update_stat_info-ordered fresh 1 (new_host-IsStat (addr_at 3))
