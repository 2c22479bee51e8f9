-- ===== src/Service/Live.antt =====
-- The resend list of the network under the operations of lib/dht/dht.cpp and messages.cpp.
use arbore_experiment.Base.{ℕ, Bool, true, false, Option, none, some}
use arbore_experiment.Key.{Key}
use arbore_experiment.Host.{Host}
use arbore_experiment.Dht.{Data}
use arbore_experiment.Dht.Storage.{has_key}
use arbore_experiment.Dht.Storage
use arbore_experiment.Messages.{get_type}
use arbore_experiment.Packet.{
  Packet, PacketType, Handler, handler_chimera, handler_dht, handler_arbore,
}
use arbore_experiment.Step.{
  Step, Safe, returns_safe, null_safe, assertion_safe, bind-Safe, if-Safe, asserted-Safe,
}
use arbore_experiment.Chimera.{System, closest_to}
use arbore_experiment.Chimera.Live.{NodeLive, send-Safe, send_to_neighbours-Safe, route-Safe}
use arbore_experiment.Chimera.Handlers.Live.{handle_message-Safe}
use arbore_experiment.Service.{
  Service, stored, with_node, key_packet, replicate, announce, if_stored, publish, unpublish,
  request_data, handle_publish, handle_unpublish, handle_repeat_publish, handle_repeat_unpublish,
  answer, answer_get, handle_get, hand_over, handle_get_ack, handle_get_nack, handle_chunk_send,
  handle, dispatch, chained, handle_message,
}

abbrev pub ServiceLive : Service → Type 0
ServiceLive s = NodeLive s.node

abbrev KeptLive : Service × Bool → Type 0
KeptLive r = ServiceLive r.0

stored-Safe : (s : Service) (o : Storage.Outcome) → ServiceLive s → Safe KeptLive (stored s o)
unfolding stored
stored-Safe s (Storage.done x) live = returns_safe live
stored-Safe s (Storage.wrong_data_type x) live = returns_safe live
stored-Safe s (Storage.unknown_key x) live = assertion_safe

module _ (sys : System) (tries : ℕ) where
  pub replicate-Safe :
      (type : PacketType) (k : Key) (d : Data) (s : Service)
      → ServiceLive s
      → Safe ServiceLive (replicate sys tries type k d s)
  unfolding replicate with_node
  replicate-Safe type k d s live =
      bind-Safe _ _ (send_to_neighbours-Safe sys _ _ s.node live) (λ r kept. returns_safe kept)

  announce-Safe :
      (type repeat_type : PacketType) (k : Key) (d : Data) (s : Service)
      → ServiceLive s
      → Safe ServiceLive (announce sys tries type repeat_type k d s)
  unfolding announce with_node
  announce-Safe type repeat_type k d s live =
      bind-Safe _ _ (route-Safe sys tries _ s.node live)
        (λ r kept. if-Safe _ (returns_safe kept) (replicate-Safe repeat_type k d _ kept))

  if_stored-Safe :
      (next : Service → Step Service) (r : Service × Bool)
      → KeptLive r
      → ((s : Service) → ServiceLive s → Safe ServiceLive (next s))
      → Safe ServiceLive (if_stored sys tries next r)
  unfolding if_stored
  if_stored-Safe next (s, false) live h = returns_safe live
  if_stored-Safe next (s, true) live h = h s live

  pub publish-Safe :
      (k : Key) (d : Data) (s : Service)
      → ServiceLive s
      → Safe ServiceLive (publish sys tries k d s)
  unfolding publish
  publish-Safe k d s live =
      bind-Safe _ _ (stored-Safe s _ live)
        (λ r kept. if_stored-Safe _ r kept (announce-Safe _ _ k d))

  pub unpublish-Safe :
      (k : Key) (d : Data) (s : Service)
      → ServiceLive s
      → Safe ServiceLive (unpublish sys tries k d s)
  unfolding unpublish
  unpublish-Safe k d s live =
      bind-Safe _ _ (stored-Safe s _ live)
        (λ r kept. if_stored-Safe _ r kept (announce-Safe _ _ k d))

  pub request_data-Safe :
      (k : Key) (s : Service) → ServiceLive s → Safe KeptLive (request_data sys tries k s)
  unfolding request_data with_node
  request_data-Safe k s live = if-Safe (has_key s.storage k) (returns_safe {a = (s, false)} live) (
      if-Safe (closest_to k s.node) (returns_safe {a = (s, false)} live) (
        bind-Safe _ _ (route-Safe sys tries (key_packet get_type s.me k k) s.node live)
          (λ r kept. returns_safe {a = (with_node s r.0, true)} kept)))

  abbrev Handles : (Packet → Service → Step Service) → Type 0
  Handles f = (p : Packet) (s : Service) → ServiceLive s → Safe ServiceLive (f p s)

  handle_publish-Safe : Handles (handle_publish sys tries)
  unfolding handle_publish
  handle_publish-Safe p s live = bind-Safe _ _ (asserted-Safe _) (λ k u.
      bind-Safe _ _ (asserted-Safe _) (λ d u'.
        bind-Safe _ _ (stored-Safe s _ live)
          (λ r kept. if_stored-Safe _ r kept (replicate-Safe _ k d))))

  handle_unpublish-Safe : Handles (handle_unpublish sys tries)
  unfolding handle_unpublish
  handle_unpublish-Safe p s live = bind-Safe _ _ (asserted-Safe _) (λ k u.
      bind-Safe _ _ (asserted-Safe _) (λ d u'.
        bind-Safe _ _ (stored-Safe s _ live)
          (λ r kept. if_stored-Safe _ r kept (replicate-Safe _ k d))))

  handle_repeat_publish-Safe : Handles (handle_repeat_publish sys tries)
  unfolding handle_repeat_publish
  handle_repeat_publish-Safe p s live = bind-Safe _ _ (asserted-Safe _) (λ k u.
      bind-Safe _ _ (asserted-Safe _)
        (λ d u'. bind-Safe _ _ (stored-Safe s _ live) (λ r kept. returns_safe kept)))

  handle_repeat_unpublish-Safe : Handles (handle_repeat_unpublish sys tries)
  unfolding handle_repeat_unpublish
  handle_repeat_unpublish-Safe p s live = bind-Safe _ _ (asserted-Safe _) (λ k u.
      bind-Safe _ _ (asserted-Safe _)
        (λ d u'. bind-Safe _ _ (stored-Safe s _ live) (λ r kept. returns_safe kept)))

  answer-Safe : (h : Host) → Handles (answer sys tries h)
  unfolding answer with_node
  answer-Safe h p s live =
      bind-Safe _ _ (send-Safe sys h p s.node live) (λ r kept. returns_safe kept)

  answer_get-Safe :
      (h : Host) (p : Packet) (k : Key) (s : Service) (o : Option Data)
      → ServiceLive s
      → Safe ServiceLive (answer_get sys tries h p k s o)
  unfolding answer_get with_node
  answer_get-Safe h p k s none live =
      if-Safe _ (answer-Safe h _ s live)
        (bind-Safe _ _ (route-Safe sys tries p s.node live) (λ r kept. returns_safe kept))
  answer_get-Safe h p k s (some d) live = answer-Safe h _ s live

  handle_get-Safe : (h : Host) → Handles (handle_get sys tries h)
  unfolding handle_get
  handle_get-Safe h p s live =
      bind-Safe _ _ (asserted-Safe _) (λ k u. answer_get-Safe h p k s _ live)

  hand_over-Safe : (r : Service × Bool) → KeptLive r → Safe ServiceLive (hand_over sys tries r)
  unfolding hand_over
  hand_over-Safe (s, false) live = returns_safe live
  hand_over-Safe (s, true) live = if-Safe _ (returns_safe live) null_safe

  handle_get_ack-Safe : Handles (handle_get_ack sys tries)
  unfolding handle_get_ack
  handle_get_ack-Safe p s live = bind-Safe _ _ (asserted-Safe _) (λ k u.
      bind-Safe _ _ (asserted-Safe _)
        (λ d u'. bind-Safe _ _ (stored-Safe s _ live) (λ r kept. hand_over-Safe r kept)))

  handle_get_nack-Safe : Handles (handle_get_nack sys tries)
  unfolding handle_get_nack
  handle_get_nack-Safe p s live = bind-Safe _ _ (asserted-Safe _) (λ k u. returns_safe live)

  handle_chunk_send-Safe : Handles (handle_chunk_send sys tries)
  unfolding handle_chunk_send
  handle_chunk_send-Safe p s live = bind-Safe _ _ (asserted-Safe _) (λ c u. returns_safe live)

  handle-Safe : (h : Host) → Handles (handle sys tries h)
  unfolding handle
  handle-Safe h p s live = if-Safe _ (handle_publish-Safe p s live) (
      if-Safe _ (handle_repeat_publish-Safe p s live) (
        if-Safe _ (handle_unpublish-Safe p s live) (
          if-Safe _ (handle_repeat_unpublish-Safe p s live) (
            if-Safe _ (handle_get-Safe h p s live) (
              if-Safe _ (handle_get_ack-Safe p s live)
                (if-Safe _ (handle_get_nack-Safe p s live) null_safe))))))

  dispatch-Safe :
      (h : Host) (p : Packet) (s : Service) (layer : Handler)
      → ServiceLive s
      → Safe ServiceLive (dispatch sys tries h p s layer)
  unfolding dispatch
  dispatch-Safe h p s handler_dht live = handle-Safe h p s live
  dispatch-Safe h p s handler_chimera live = returns_safe live
  dispatch-Safe h p s handler_arbore live =
      if-Safe _ (handle_chunk_send-Safe p s live) (returns_safe live)

  pub handle_message-Live : (h : Host) → Handles (handle_message sys tries h)
  unfolding handle_message chained with_node
  handle_message-Live h p s live =
      bind-Safe _ _ (handle_message-Safe sys tries p s.node live)
        (λ r kept. if-Safe _ (dispatch-Safe h p _ p.type.handler kept) (returns_safe kept))
