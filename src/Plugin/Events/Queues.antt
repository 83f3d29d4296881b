-- ===== src/Plugin/Events/Queues.antt =====
-- What Docker's events do to the queues of pending containers of pkg/plugin/plugin.go.
use docker_net_dhcp.Shared.{
  ℕ, [], ◌∷◌, true, false, some, ◌≡◌, ◌≢◌, refl, ◌∙◌, arith, All, Option-cases, Bool-cases, inl,
  inr,
}
use docker_net_dhcp.Shared.Text.{Text, text, str_eq, str_eq_iff, trim_prefix, is_empty}
use docker_net_dhcp.Shared.Dict.{Dict}
use docker_net_dhcp.Driver.{is_dhcp_plugin}
use docker_net_dhcp.Cache.Disk.{Outcome}
use docker_net_dhcp.Cache.Reconcile.{Inspect}
use docker_net_dhcp.Pending.{Pending, queue_of, pop_pending_container, upsert_pending_meta}
use docker_net_dhcp.Pending.Meta.{lookup-upsert}
use docker_net_dhcp.Pending.Queue.{queue_of-pop}
use docker_net_dhcp.Pending.Compose.{IsBackward, pop-push_forward}
use docker_net_dhcp.Plugin.{Plugin, effective_hostname}
use docker_net_dhcp.Plugin.Events.{
  Docker, Container, Settings, Message, is_special, register_pending_for_network_meta,
  register_pending_for_network, on_create, on_start, on_connect, on_message,
}
use docker_net_dhcp.Plugin.Events.Handled.{on_message-cases}

-- a pop is decided by the queue alone, so a write of metadata does not change it
pub pop-upsert :
    (now : ℕ) (n n' name hostname : Text) (p : Pending)
    → (pop_pending_container n (upsert_pending_meta now n' name hostname p)).1
      ≡ (pop_pending_container n p).1
pop-upsert now n n' name hostname p =
    rw
      (
        (queue_of-pop n (upsert_pending_meta now n' name hostname p) n).0,
        (queue_of-pop n p n).0,
        (lookup-upsert now n' name hostname p n name).1,
      )
      refl

module _ (docker : Docker) (now : ℕ) where
  queue_of-network_meta :
      (net name hostname : Text) (p : Plugin) (m : Text)
      → queue_of m (register_pending_for_network_meta docker now net name hostname p).pending
        ≡ queue_of m p.pending
  unfolding register_pending_for_network_meta
  queue_of-network_meta net name hostname p m = elim (Option-cases (docker.network_inspect net)) [
    | inl h ↦ ground (arith, h)
    | inr (n, h) ↦ ground (arith, h, (lookup-upsert now n.id name hostname p.pending m name).1)
  ]

  queue_of-start :
      (os : Outcome) (name hostname : Text) (networks : Dict Settings) (p : Plugin) (m : Text)
      → queue_of m (on_start docker now os name hostname networks p).pending ≡ queue_of m p.pending
  unfolding on_start
  queue_of-start os name hostname [] p m = refl
  queue_of-start os name hostname ((net_name, settings) ∷ networks) p m =
      elim (Bool-cases (is_empty settings.endpoint_id)) [
        | inl h ↦
            rw (h, on_start)
              (queue_of-start os name hostname networks _ m
                ∙ queue_of-network_meta net_name name hostname p m)
        | inr h ↦
            rw (h, on_start)
              (queue_of-start os name hostname networks _ m
                ∙ queue_of-network_meta net_name name hostname p m)
      ]

  -- Only the create and die events of Docker change a queue of pending containers: the events that
  -- come too late for CreateEndpoint, such as start and connect, leave every queue as it is.
  pub queue_of-on_message :
      (os : Outcome) (msg : Message) (p : Plugin) (m : Text)
      → msg.action ≢ text "create"
      → msg.action ≢ text "die"
      → queue_of m (on_message docker now os msg p).pending ≡ queue_of m p.pending
  unfolding on_connect
  queue_of-on_message os msg p m not_create not_die =
      on_message-cases docker now (λ q. queue_of m q.pending ≡ queue_of m p.pending) os msg p refl
        (λ name ctr e. absurd (not_create ((str_eq_iff msg.action (text "create")).0 e)))
        (λ name hostname networks. queue_of-start os name hostname networks p m)
        (λ name hostname networks e. absurd (not_die ((str_eq_iff msg.action (text "die")).0 e)))
        (λ net_id ctr. (lookup-upsert now net_id _ _ p.pending m net_id).1)

  -- Compose up: on a create event for a container of a network of this plugin, whose queue holds
  -- only what a compose-down left, the container is the next that CreateEndpoint takes, under the
  -- name of the event and with its own hostname, or the name where Docker chose the hostname.
  pub pop-create :
      (os : Outcome) (msg : Message) (ctr : Container) (n : Inspect) (p : Plugin)
      → msg.type_of ≡ text "container"
      → msg.action ≡ text "create"
      → docker.container_inspect msg.actor_id ≡ some ctr
      → is_special ctr.network_mode ≡ false
      → docker.network_inspect ctr.network_mode ≡ some n
      → is_dhcp_plugin n.driver ≡ true
      → All IsBackward (queue_of n.id p.pending)
      → (let name = trim_prefix (text "/") msg.name in
          (pop_pending_container n.id (on_message docker now os msg p).pending).1
          ≡ some (name, effective_hostname ctr.id ctr.hostname name))
  unfolding on_message on_create register_pending_for_network str_eq
  pop-create os msg ctr n p t a e special found driver backward =
      rw
        (
          t, a, e, on_message, a, special, on_create, found, register_pending_for_network, driver,
          pop-upsert,
        )
        (pop-push_forward now n.id _ _ p.pending backward)
