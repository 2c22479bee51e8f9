-- ===== src/Network/Hosts.antt =====
-- lib/net/hosts_list.cpp: the hosts by their addresses.
use arbore_experiment.Base.{suc, ◌||◌, Option, none, some, List, [], ◌∷◌, if◌then◌else◌}
use arbore_experiment.Key.{Key, to_bool}
use arbore_experiment.Address.{Addr, addr_lt}
use arbore_experiment.Host.{Host, ref, new_host, update, key_of, set_key}
use arbore_experiment.Network.{World}

-- HostsList::GetHost: the map finds an address that is neither before nor behind.
unfoldable pub find_host : List (Addr × Host) → Addr → Option Host
find_host [] a = none
find_host ((b, h) ∷ hosts) a =
    let rest = find_host hosts a in if addr_lt a b || addr_lt b a then rest else some h

unfoldable pub host_or_new : Addr → World → Option Host → World × Host
host_or_new a w (some h) = (w, h)
host_or_new a w none = (
  record w {
    heap = update w.heap w.next_host (new_host a);
    next_host = suc w.next_host;
    hosts = (a, ref w.next_host) ∷ w.hosts;
  },
  ref w.next_host,
)

unfoldable pub get_host : Addr → World → World × Host
unfolding host_or_new
get_host a w = host_or_new a w (find_host w.hosts a)

-- A sender without a key gets that of the packet.
unfoldable pub learn_key : Host → Key → World → World
learn_key h k w = if to_bool (key_of w.heap h) then w else record w { heap = set_key w.heap h k }
