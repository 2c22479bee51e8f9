-- ===== src/Service/Publish.antt =====
-- The storing of values by the packets of lib/dht/messages.cpp.
use arbore_experiment.Base.{ℕ, ◌≡◌, refl, true, false, some, List, if◌then◌else◌}
use arbore_experiment.Key.{Key, eq, zero_key}
use arbore_experiment.Dht.{Data, key_list}
use arbore_experiment.Dht.Storage.{add_info, is_string_list}
use arbore_experiment.Dht.Storage.Contents.{keys_at}
use arbore_experiment.Dht.Storage.Lists.{insert_all, add_keys-Adds}
use arbore_experiment.Packet.{Packet, PacketType, key_arg, data_arg, new_packet, set_arg, is_of}
use arbore_experiment.Packet.Write.{dump_args}
use arbore_experiment.Network.Resend.{HasArgs}
use arbore_experiment.Messages.{arg_at, as_key, as_data, repeat_publish_type}
use arbore_experiment.Step.{Step, returns, ◌>>=◌, asserted}
use arbore_experiment.Chimera.{System, now}
use arbore_experiment.Chimera.Live.{send_to_neighbours-Returns}
use arbore_experiment.Service.{
  Service, redondancy, data_packet, key_packet, stored, with_node, replicate, if_stored,
  handle_publish, handle_repeat_publish, handle_get_ack, hand_over,
}
use arbore_experiment.Service.Live.{ServiceLive}

-- A step returns, and leaves these keys under a key; what stands under the others is as before.
abbrev pub Stores : Service → Key → List Key → Step Service → Type 0
Stores s k keys r =
    (s' : Service) × (r ≡ returns s')
    × ServiceLive s'
    × ((k' : Key) → keys_at s'.storage k' ≡ (if eq k' k then keys else keys_at s.storage k'))

-- The packet has a key and a list of keys.
abbrev pub Carries : Packet → Key → List Key → ℕ → Type 0
Carries p k keys t =
    (arg_at p.args 0 ≡ some (key_arg k)) × (arg_at p.args 1 ≡ some (data_arg (key_list keys t)))

module _ (sys : System) (tries : ℕ) where
  replicate-Stores :
      (type : PacketType) (k : Key) (d : Data) (s : Service)
      → ServiceLive s
      → HasArgs (data_packet type s.me zero_key k d)
      → (s' : Service) × (replicate sys tries type k d s ≡ returns s')
        × ServiceLive s'
        × (s'.storage ≡ s.storage)
  unfolding replicate with_node ◌>>=◌
  replicate-Stores type k d s live has =
      let (n, b, e, live') =
        send_to_neighbours-Returns sys redondancy (data_packet type s.me zero_key k d) s.node live
          has in
      let after : Service = record s { node = n } in (after, rw e refl, live', refl)

  -- If the resend list is live, the PUBLISH has a key and a list of keys, and no list of strings
  -- stands under the key, then its handler returns with a live resend list; under the key then
  -- stand the keys before with those of the packet inserted, and what stands under every other key
  -- is as before.
  pub handle_publish-Stores :
      (p : Packet) (k : Key) (keys : List Key) (t : ℕ) (s : Service)
      → ServiceLive s
      → Carries p k keys t
      → is_string_list s.storage k ≡ false
      → Stores s k (insert_all keys (keys_at s.storage k)) (handle_publish sys tries p s)
  unfolding handle_publish asserted as_key as_data stored if_stored add_info dump_args is_of
      data_packet key_packet new_packet set_arg repeat_publish_type ◌>>=◌
  handle_publish-Stores p k keys t s live (is_k, is_d) no_strings =
      let (storage, is, h, at) = add_keys-Adds (now sys s.node) s.storage k keys no_strings in
      let (s', e, live', same) =
        replicate-Stores _ k (key_list keys t) (record s { storage = storage }) live (_, refl) in
      rw (is_k, is_d, is) (s', e, live', λ k'. rw same (at k'))

  handle_repeat_publish-Stores :
      (p : Packet) (k : Key) (keys : List Key) (t : ℕ) (s : Service)
      → ServiceLive s
      → Carries p k keys t
      → is_string_list s.storage k ≡ false
      → Stores s k (insert_all keys (keys_at s.storage k)) (handle_repeat_publish sys tries p s)
  unfolding handle_repeat_publish asserted as_key as_data stored add_info ◌>>=◌
  handle_repeat_publish-Stores p k keys t s live (is_k, is_d) no_strings =
      let (storage, is, h, at) = add_keys-Adds (now sys s.node) s.storage k keys no_strings in
      rw (is_k, is_d, is) (_, refl, live, at)

  handle_get_ack-Stores :
      (p : Packet) (k : Key) (keys : List Key) (t : ℕ) (s : Service)
      → ServiceLive s
      → Carries p k keys t
      → is_string_list s.storage k ≡ false
      → s.has_arbore ≡ true
      → Stores s k (insert_all keys (keys_at s.storage k)) (handle_get_ack sys tries p s)
  unfolding handle_get_ack asserted as_key as_data stored add_info hand_over ◌>>=◌
  handle_get_ack-Stores p k keys t s live (is_k, is_d) no_strings above =
      let (storage, is, h, at) = add_keys-Adds (now sys s.node) s.storage k keys no_strings in
      rw (is_k, is_d, is, above) (_, refl, live, at)
