-- ===== src/Chimera/Handlers/Live.antt =====
-- The resend list of the network under the packets of lib/chimera/messages.cpp and the job of
-- check_leafset_job.cpp.
use arbore_experiment.Base.{ℕ, List, [], ◌∷◌}
use arbore_experiment.Address.{Addr}
use arbore_experiment.Host.{Host}
use arbore_experiment.Packet.{Packet, Handler, handler_chimera, handler_dht, handler_arbore}
use arbore_experiment.Step.{
  Step, Safe, returns_safe, null_safe, bind-Safe, if-Safe, of_routing-Safe, asserted-Safe,
}
use arbore_experiment.Chimera.{System, Node}
use arbore_experiment.Chimera.Live.{
  NodeLive, FirstLive, get_host-Live, add-Safe, remove-Safe, queue_check-Live, send-Safe,
  send_only-Safe, ping-Safe, join-Safe, failed-Safe, route-Safe,
}
use arbore_experiment.Chimera.Handlers.{
  handle_join, send_update, add_each, update_each, handle_join_ack, handle_join_nack, handle_update,
  add_older, handle_piggy, handle_ping, handle_chat, handle, deliver, unless_routed, handle_message,
  ping_each, exchange, exchange_after, check_leafset,
}

-- The handlers return a node and are safe.
abbrev Handles : (Packet → Node → Step Node) → Type 0
Handles f = (p : Packet) (n : Node) → NodeLive n → Safe NodeLive (f p n)

module _ (sys : System) where
  handle_join-Safe : Handles (handle_join sys)
  unfolding handle_join
  handle_join-Safe p n live =
      bind-Safe _ _ (asserted-Safe _) (λ a u. send_only-Safe sys _ _ _ (get_host-Live a n live))

  send_update-Safe : (h : Host) (n : Node) → NodeLive n → Safe NodeLive (send_update sys h n)
  unfolding send_update
  send_update-Safe h n live = send_only-Safe sys h _ n live

  add_each-Safe : (l : List Addr) (n : Node) → NodeLive n → Safe NodeLive (add_each sys l n)
  unfolding add_each
  add_each-Safe [] n live = returns_safe live
  add_each-Safe (a ∷ l) n live =
      bind-Safe _ _ (add-Safe _ _ (get_host-Live a n live))
        (λ m kept. bind-Safe _ _ (send_update-Safe _ m kept) (λ m' kept'. add_each-Safe l m' kept'))

  update_each-Safe : (l : List Host) (n : Node) → NodeLive n → Safe NodeLive (update_each sys l n)
  unfolding update_each
  update_each-Safe [] n live = returns_safe live
  update_each-Safe (h ∷ l) n live =
      bind-Safe _ _ (send_update-Safe h n live) (λ m kept. update_each-Safe l m kept)

  handle_join_ack-Safe : Handles (handle_join_ack sys)
  unfolding handle_join_ack
  handle_join_ack-Safe p n live = bind-Safe _ _ (asserted-Safe _) (λ l u.
      bind-Safe _ _ (add_each-Safe l n live) (λ n' kept. bind-Safe _ _ (of_routing-Safe _) (λ hs u'.
        bind-Safe _ _ (update_each-Safe hs n' kept)
          (λ m kept'. returns_safe (queue_check-Live _ m kept')))))

  handle_join_nack-Safe : Handles (handle_join_nack sys)
  unfolding handle_join_nack
  handle_join_nack-Safe p n live =
      bind-Safe _ _ (asserted-Safe _) (λ a u. join-Safe sys _ _ (get_host-Live a n live))

  handle_update-Safe : Handles (handle_update sys)
  unfolding handle_update
  handle_update-Safe p n live =
      bind-Safe _ _ (asserted-Safe _) (λ a u. add-Safe _ _ (get_host-Live a n live))

  add_older-Safe : (l : List Addr) (n : Node) → NodeLive n → Safe NodeLive (add_older sys l n)
  unfolding add_older
  add_older-Safe [] n live = returns_safe live
  add_older-Safe (a ∷ l) n live =
      let found = get_host-Live a n live in
      bind-Safe _ _ (if-Safe _ (add-Safe _ _ found) (returns_safe found))
        (λ m kept. add_older-Safe l m kept)

  handle_piggy-Safe : Handles (handle_piggy sys)
  unfolding handle_piggy
  handle_piggy-Safe p n live = bind-Safe _ _ (asserted-Safe _) (λ l u. add_older-Safe l n live)

  handle_ping-Safe : Handles (handle_ping sys)
  unfolding handle_ping
  handle_ping-Safe p n live =
      bind-Safe _ _ (asserted-Safe _) (λ a u. returns_safe (get_host-Live a n live))

  handle_chat-Safe : Handles (handle_chat sys)
  unfolding handle_chat
  handle_chat-Safe p n live = bind-Safe _ _ (asserted-Safe _) (λ s u. returns_safe live)

  handle-Safe : Handles (handle sys)
  unfolding handle
  handle-Safe p n live = if-Safe _ (handle_join-Safe p n live) (
      if-Safe _ (handle_join_ack-Safe p n live) (
        if-Safe _ (handle_update-Safe p n live) (
          if-Safe _ (handle_piggy-Safe p n live) (
            if-Safe _ (handle_join_nack-Safe p n live) (
              if-Safe _ (handle_ping-Safe p n live)
                (if-Safe _ (handle_chat-Safe p n live) null_safe))))))

  deliver-Safe :
      (p : Packet) (n : Node) (h : Handler) → NodeLive n → Safe FirstLive (deliver sys p n h)
  unfolding deliver
  deliver-Safe p n handler_chimera live =
      bind-Safe _ _ (handle-Safe p n live) (λ n' kept. returns_safe kept)
  deliver-Safe p n handler_dht live = returns_safe live
  deliver-Safe p n handler_arbore live = returns_safe live

  pub handle_message-Safe :
      (tries : ℕ) (p : Packet) (n : Node)
      → NodeLive n
      → Safe FirstLive (handle_message sys tries p n)
  unfolding handle_message unless_routed
  handle_message-Safe tries p n live =
      bind-Safe _ _ (if-Safe _ (route-Safe sys tries p n live) (returns_safe live))
        (λ r kept. if-Safe _ (returns_safe kept) (deliver-Safe p r.0 p.type.handler kept))

  ping_each-Safe : (l : List Host) (n : Node) → NodeLive n → Safe NodeLive (ping_each sys l n)
  unfolding ping_each
  ping_each-Safe [] n live = returns_safe live
  ping_each-Safe (h ∷ l) n live =
      if-Safe _
        (bind-Safe _ _ (ping-Safe sys h n live) (λ r kept.
          bind-Safe _ _ (if-Safe _ (returns_safe kept) (failed-Safe sys h r.0 kept))
            (λ m kept'. ping_each-Safe l m kept')))
        (ping_each-Safe l n live)

  exchange-Safe :
      (p : Packet) (l : List Host) (n : Node) → NodeLive n → Safe NodeLive (exchange sys p l n)
  unfolding exchange
  exchange-Safe p [] n live = returns_safe live
  exchange-Safe p (h ∷ l) n live = bind-Safe _ _ (send-Safe sys h _ n live) (λ r kept.
      bind-Safe _ _ (if-Safe _ (remove-Safe h r.0 kept) (returns_safe kept))
        (λ m kept'. exchange-Safe p l m kept'))

  pub check_leafset-Safe :
      (count : ℕ) (n : Node) → NodeLive n → Safe FirstLive (check_leafset sys count n)
  unfolding check_leafset exchange_after
  check_leafset-Safe count n live = bind-Safe _ _ (ping_each-Safe _ n live) (λ n' kept.
      bind-Safe _ _ (of_routing-Safe _) (λ table u.
        bind-Safe _ _ (ping_each-Safe table n' kept) (λ m kept'.
          if-Safe _ (bind-Safe _ _ (exchange-Safe _ _ m kept') (λ m' kept''. returns_safe kept''))
            (returns_safe kept'))))
