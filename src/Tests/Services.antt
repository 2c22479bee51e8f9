-- ===== src/Tests/Services.antt =====
-- Runs of lib/dht/dht.cpp and messages.cpp.
use arbore_experiment.Base.{refl, List, [], ◌∷◌, true, some}
use arbore_experiment.Key.{eq}
use arbore_experiment.Host.{ref}
use arbore_experiment.Packet.{Packet, key_arg, data_arg}
use arbore_experiment.Dht.{key_list}
use arbore_experiment.Dht.Storage.{find, is_strings, is_string_list}
use arbore_experiment.Dht.Storage.Contents.{keys_at}
use arbore_experiment.Dht.Storage.Lists.{insert_all}
use arbore_experiment.Messages.{arg_at}
use arbore_experiment.Step.{Safe}
use arbore_experiment.Service.{Service, handle_publish}
use arbore_experiment.Service.Live.{ServiceLive}
use arbore_experiment.Service.Publish.{Stores, handle_publish-Stores}
use arbore_experiment.Service.Runs.{Event, publishes, requests, handles, checks, run, run-Safe}
use arbore_experiment.Tests.{key_at}
use arbore_experiment.Tests.Networks.{world-IsLive, packet}
use arbore_experiment.Tests.Nodes.{system, node}

-- The key 3 has the key 9.
abbrev service : Service
service = record {
  node = node;
  storage = (key_at 3, key_list (key_at 9 ∷ []) 5) ∷ [];
  me = key_at 8;
  has_arbore = true;
}

abbrev publish : Packet
publish = record (packet 4) {
  args = some (key_arg (key_at 3)) ∷ some (data_arg (key_list (key_at 7 ∷ []) 6)) ∷ [];
}

handle_publish-Stores_example :
    Stores service
      (key_at 3)
      (insert_all (key_at 7 ∷ []) (keys_at service.storage (key_at 3)))
      (handle_publish system 5 publish service)
unfolding arg_at is_string_list is_strings find eq
handle_publish-Stores_example =
    handle_publish-Stores system 5 publish (key_at 3) (key_at 7 ∷ []) 6 service world-IsLive
      (refl, refl) refl

abbrev events : List Event
events =
    publishes (key_at 3) (key_list (key_at 7 ∷ []) 6)
    ∷ handles (ref 9) publish
    ∷ requests (key_at 5)
    ∷ checks 2
    ∷ []

run-Safe_example : Safe ServiceLive (run system 5 events service)
run-Safe_example = run-Safe system 5 events service world-IsLive
