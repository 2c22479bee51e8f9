-- ===== src/Step.antt =====
-- How a step of a node (lib/chimera and lib/dht) ends, where it calls the network and the routing.
use arbore_experiment.Base.{Bool, true, false, if◌then◌else◌, Option, none, some}
use arbore_experiment.RoutingTable.{Result, ok}
use arbore_experiment.Network.{Outcome}
use arbore_experiment.RoutingTable
use arbore_experiment.Network

-- It returns, reads a job that was deleted, lets std::out_of_range through, goes through a null
-- pointer, or fails an assertion. `unbounded` is the model's own: a loop was given too few rounds.
pub data Step {ℓ} (A : Type ℓ) : Type ℓ where
  returns : A → Step A
  freed_job : Step A
  out_of_range : Step A
  null_pointer : Step A
  assertion : Step A
  unbounded : Step A

infixl 5 ◌>>=◌
unfoldable pub ◌>>=◌ {ℓ κ} : {A : Type ℓ} {B : Type κ} → Step A → (A → Step B) → Step B
returns a >>= f = f a
freed_job >>= f = freed_job
out_of_range >>= f = out_of_range
null_pointer >>= f = null_pointer
assertion >>= f = assertion
unbounded >>= f = unbounded

unfoldable pub of_network {ℓ} : {A : Type ℓ} → Outcome A → Step A
of_network (Network.done a) = returns a
of_network Network.dangling = freed_job
of_network Network.aborted = assertion

unfoldable pub of_routing {ℓ} : {A : Type ℓ} → Result A → Step A
of_routing (ok a) = returns a
of_routing RoutingTable.out_of_range = out_of_range
of_routing RoutingTable.no_fuel = unbounded

-- GetArg asserts that the argument is there and has the type.
unfoldable pub asserted {ℓ} : {A : Type ℓ} → Option A → Step A
asserted none = assertion
asserted (some a) = returns a

-- What a step leaves if it returns, and that it reads no job that was deleted.
pub data Safe {ℓ} {A : Type ℓ} (P : A → Type 0) : Step A → Type ℓ where
  returns_safe : {a : A} → P a → Safe P (returns a)
  range_safe : Safe P out_of_range
  null_safe : Safe P null_pointer
  assertion_safe : Safe P assertion
  unbounded_safe : Safe P unbounded

-- What a step leaves is what the next one starts from.
pub bind-Safe {ℓ κ} :
    {A : Type ℓ} {B : Type κ} {P : A → Type 0} {Q : B → Type 0} (r : Step A) (f : A → Step B)
    → Safe P r
    → ((a : A) → P a → Safe Q (f a))
    → Safe Q (r >>= f)
unfolding ◌>>=◌
bind-Safe (returns a) f (returns_safe p) next = next a p
bind-Safe out_of_range f range_safe next = range_safe
bind-Safe null_pointer f null_safe next = null_safe
bind-Safe assertion f assertion_safe next = assertion_safe
bind-Safe unbounded f unbounded_safe next = unbounded_safe
bind-Safe freed_job f safe next = elim safe [ ]

pub if-Safe {ℓ} :
    {A : Type ℓ} {P : A → Type 0} (b : Bool) {r s : Step A}
    → Safe P r
    → Safe P s
    → Safe P (if b then r else s)
if-Safe true h k = h
if-Safe false h k = k

pub of_routing-Safe {ℓ} : {A : Type ℓ} (r : Result A) → Safe (λ a. Unit) (of_routing r)
unfolding of_routing
of_routing-Safe (ok a) = returns_safe tt
of_routing-Safe RoutingTable.out_of_range = range_safe
of_routing-Safe RoutingTable.no_fuel = unbounded_safe

pub asserted-Safe {ℓ} : {A : Type ℓ} (o : Option A) → Safe (λ a. Unit) (asserted o)
unfolding asserted
asserted-Safe none = assertion_safe
asserted-Safe (some a) = returns_safe tt
