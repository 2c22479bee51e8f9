-- ===== src/Chimera/Live.antt =====
-- The resend list of the network under the operations of lib/chimera/chimera.cpp.
use arbore_experiment.Base.{
  ℕ, zero, suc, ◌≡◌, refl, Bool, true, false, Option, none, some, List, [], ◌∷◌, arith, length, inl,
  inr,
}
use arbore_experiment.Key.{Key}
use arbore_experiment.Address.{Addr}
use arbore_experiment.Host.{Host, invalid, ref}
use arbore_experiment.Packet.{Packet}
use arbore_experiment.Routing.{get_cw_leafset}
use arbore_experiment.Network.{World}
use arbore_experiment.Network.Hosts.{host_or_new, find_host}
use arbore_experiment.Network.Hosts
use arbore_experiment.Network.Resend.{IsLive, Live-put_job, HasArgs, send-Ends, send-IsLive}
use arbore_experiment.Step.{
  Step, returns, of_network, ◌>>=◌, Safe, returns_safe, assertion_safe, unbounded_safe, bind-Safe,
  if-Safe, of_routing-Safe, asserted-Safe,
}
use arbore_experiment.Chimera.{
  System, Node, get_host, add, remove, queue_check, send, send_each, send_to_neighbours, ping, join,
  failed, unless_sent, send_on, send_row_info, other_host, forward, route, sent_by, with_world,
  routed, route_lookup, with_heap, now,
}

abbrev pub NodeLive : Node → Type 0
NodeLive n = IsLive n.world

abbrev pub FirstLive {ℓ} : {A : Type ℓ} → Node × A → Type 0
FirstLive r = NodeLive r.0

host_or_new-Live :
    (a : Addr) (w : World) (o : Option Host) → IsLive w → IsLive (host_or_new a w o).0
unfolding host_or_new
host_or_new-Live a w none live = live
host_or_new-Live a w (some h) live = live

pub get_host-Live : (a : Addr) (n : Node) → NodeLive n → NodeLive (get_host a n).0
unfolding get_host with_world Hosts.get_host
get_host-Live a n live = host_or_new-Live a n.world (find_host n.world.hosts a) live

pub add-Safe : (h : Host) (n : Node) → NodeLive n → Safe NodeLive (add h n)
unfolding add routed
add-Safe h n live = bind-Safe _ _ (of_routing-Safe _) (λ r u. returns_safe live)

pub remove-Safe : (h : Host) (n : Node) → NodeLive n → Safe NodeLive (remove h n)
unfolding remove routed
remove-Safe h n live = bind-Safe _ _ (of_routing-Safe _) (λ r u. returns_safe live)

pub route_lookup-Safe : (k : Key) (n : Node) → Safe (λ h. Unit) (route_lookup k n)
unfolding route_lookup
route_lookup-Safe k n = of_routing-Safe _

pub queue_check-Live : (time : ℕ) (n : Node) → NodeLive n → NodeLive (queue_check time n)
unfolding queue_check with_world
queue_check-Live time n live = Live-put_job _ n.world.next_job (omega arith) live

module _ (sys : System) where
  pub send-Safe : (h : Host) (p : Packet) (n : Node) → NodeLive n → Safe FirstLive (send sys h p n)
  unfolding send sent_by with_world of_network ◌>>=◌
  send-Safe h p n live =
      elim (send-Ends (sys.sendto (length n.world.wire)) (now sys n) (now sys n) n.fd h p n.world
        live) [ inl (w, b, e, live') ↦ rw e (returns_safe live') | inr e ↦ rw e assertion_safe ]

  send_each-Safe :
      (hs : List Host) (number : ℕ) (p : Packet) (n : Node) (success : Bool)
      → NodeLive n
      → Safe FirstLive (send_each sys hs number p n success)
  unfolding send_each
  send_each-Safe [] number p n success live = returns_safe live
  send_each-Safe (h ∷ hs) zero p n success live = returns_safe live
  send_each-Safe (h ∷ hs) (suc number) p n success live =
      bind-Safe _ _ (send-Safe h p n live) (λ r kept. send_each-Safe hs number p r.0 _ kept)

  pub send_to_neighbours-Safe :
      (number : ℕ) (p : Packet) (n : Node)
      → NodeLive n
      → Safe FirstLive (send_to_neighbours sys number p n)
  unfolding send_to_neighbours
  send_to_neighbours-Safe number p n live =
      bind-Safe _ _ (send_each-Safe _ number p n false live)
        (λ r kept. send_each-Safe _ number p r.0 _ kept)

  pub send_only-Safe :
      (h : Host) (p : Packet) (n : Node)
      → NodeLive n
      → Safe NodeLive (send sys h p n >>= λ r. returns r.0)
  send_only-Safe h p n live = bind-Safe _ _ (send-Safe h p n live) (λ r kept. returns_safe kept)

  pub ping-Safe : (h : Host) (n : Node) → NodeLive n → Safe FirstLive (ping sys h n)
  unfolding ping
  ping-Safe h n live = send-Safe h _ n live

  pub join-Safe : (h : Host) (n : Node) → NodeLive n → Safe NodeLive (join sys h n)
  unfolding join
  join-Safe invalid n live = returns_safe (queue_check-Live _ n live)
  join-Safe (ref b) n live = send_only-Safe (ref b) _ n live

  pub failed-Safe : (h : Host) (n : Node) → NodeLive n → Safe NodeLive (failed sys h n)
  unfolding failed with_heap
  failed-Safe h n live = if-Safe _ (remove-Safe h _ live) (returns_safe live)

  unless_sent-Safe :
      (r : Node × Bool) (next : Node → Step Node)
      → FirstLive r
      → ((n : Node) → NodeLive n → Safe NodeLive (next n))
      → Safe NodeLive (unless_sent r next)
  unfolding unless_sent
  unless_sent-Safe (n, true) next live h = returns_safe live
  unless_sent-Safe (n, false) next live h = h n live

  send_on-Safe :
      (tries : ℕ) (h : Host) (p : Packet) (n : Node)
      → NodeLive n
      → Safe NodeLive (send_on sys tries h p n)
  unfolding send_on
  send_on-Safe zero h p n live = unbounded_safe
  send_on-Safe (suc tries) h p n live = bind-Safe _ _ (send-Safe h p n live) (λ r kept.
      unless_sent-Safe r _ kept (λ n' kept'. bind-Safe _ _ (failed-Safe h n' kept') (λ m kept''.
        bind-Safe _ _ (route_lookup-Safe p.dst m) (λ next u. send_on-Safe tries next p m kept''))))

  send_row_info-Safe : (p : Packet) (n : Node) → NodeLive n → Safe NodeLive (send_row_info sys p n)
  unfolding send_row_info
  send_row_info-Safe p n live = bind-Safe _ _ (asserted-Safe _) (λ a u.
      bind-Safe _ _ (of_routing-Safe _)
        (λ rowset u'. send_only-Safe _ _ _ (get_host-Live a n live)))

  other_host-Safe :
      (p : Packet) (h : Host) (n : Node) → NodeLive n → Safe FirstLive (other_host p h n)
  unfolding other_host
  other_host-Safe p h n live =
      if-Safe _
        (bind-Safe _ _ (remove-Safe h n live)
          (λ n' kept. bind-Safe _ _ (route_lookup-Safe p.dst n') (λ next u. returns_safe kept)))
        (returns_safe live)

  forward-Safe :
      (tries : ℕ) (p : Packet) (r : Node × Host)
      → FirstLive r
      → Safe FirstLive (forward sys tries p r)
  unfolding forward
  forward-Safe tries p r live = if-Safe _ (returns_safe live) (
      bind-Safe _ _ (send_on-Safe tries r.1 p r.0 live) (λ n' kept.
        bind-Safe _ _ (if-Safe _ (send_row_info-Safe p n' kept) (returns_safe kept))
          (λ m kept'. returns_safe kept')))

  pub route-Safe :
      (tries : ℕ) (p : Packet) (n : Node) → NodeLive n → Safe FirstLive (route sys tries p n)
  unfolding route
  route-Safe tries p n live = if-Safe _ (returns_safe live) (
      bind-Safe _ _ (route_lookup-Safe p.dst n) (λ next u.
        bind-Safe _ _ (other_host-Safe p next n live) (λ r kept. forward-Safe tries p r kept)))

-- A send returns.
abbrev pub Returns : Step (Node × Bool) → Type 0
Returns r = (n : Node) × (b : Bool) × (r ≡ returns (n, b)) × NodeLive n

module _ (sys : System) where
  pub send-Returns :
      (h : Host) (p : Packet) (n : Node) → NodeLive n → HasArgs p → Returns (send sys h p n)
  unfolding send sent_by with_world of_network ◌>>=◌
  send-Returns h p n live has =
      let (w, b, e, live') =
        send-IsLive (sys.sendto (length n.world.wire)) (now sys n) (now sys n) n.fd h p n.world live
          has in
      (record n { world = w }, b, rw e refl, live')

  send_each-Returns :
      (hs : List Host) (number : ℕ) (p : Packet) (n : Node) (success : Bool)
      → NodeLive n
      → HasArgs p
      → Returns (send_each sys hs number p n success)
  unfolding send_each ◌>>=◌
  send_each-Returns [] number p n success live has = (n, success, refl, live)
  send_each-Returns (h ∷ hs) zero p n success live has = (n, success, refl, live)
  send_each-Returns (h ∷ hs) (suc number) p n success live has =
      let (n', b, e, live') = send-Returns h p n live has in
      rw e (send_each-Returns hs number p n' _ live' has)

  pub send_to_neighbours-Returns :
      (number : ℕ) (p : Packet) (n : Node)
      → NodeLive n
      → HasArgs p
      → Returns (send_to_neighbours sys number p n)
  unfolding send_to_neighbours ◌>>=◌
  send_to_neighbours-Returns number p n live has =
      let (n', b, e, live') =
        send_each-Returns (get_cw_leafset n.routing) number p n false live has in
      rw e (send_each-Returns _ number p n' b live' has)
