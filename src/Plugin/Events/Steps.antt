-- ===== src/Plugin/Events/Steps.antt =====
-- Docker's events as steps on the pending containers of pkg/plugin/plugin.go.
use docker_net_dhcp.Shared.{ℕ, [], ◌∷◌, Bool, true, false, Option-cases, Bool-cases, inl, inr}
use docker_net_dhcp.Shared.Text.{Text, is_empty}
use docker_net_dhcp.Shared.Dict.{Dict}
use docker_net_dhcp.Driver.{is_dhcp_plugin}
use docker_net_dhcp.Cache.Disk.{Outcome}
use docker_net_dhcp.Pending.{Pending}
use docker_net_dhcp.Pending.History.{Reach, here, next, pushes, upserts}
use docker_net_dhcp.Plugin.{Plugin, effective_hostname}
use docker_net_dhcp.Plugin.Events.{
  Docker, Container, Settings, Message, is_special, register_pending_for_network_meta,
  register_pending_for_network, on_create, on_start, on_die, on_connect, on_message,
}
use docker_net_dhcp.Plugin.Events.Handled.{on_message-cases}

pub Reach-join : {p q r : Pending} → Reach p q → Reach q r → Reach p r
Reach-join a here = a
Reach-join a (next b s) = next (Reach-join a b) s

module _ (docker : Docker) (now : ℕ) where
  network_meta_steps :
      (net name hostname : Text) (p : Plugin)
      → Reach p.pending (register_pending_for_network_meta docker now net name hostname p).pending
  unfolding register_pending_for_network_meta
  network_meta_steps net name hostname p = elim (Option-cases (docker.network_inspect net)) [
    | inl h ↦ rw (h, register_pending_for_network_meta) here
    | inr (n, h) ↦ elim (Bool-cases (is_dhcp_plugin n.driver)) [
      | inl d ↦
          rw (h, register_pending_for_network_meta, d) (next here (upserts now n.id name hostname))
      | inr d ↦ rw (h, register_pending_for_network_meta, d) here
    ]
  ]

  network_steps :
      (net name hostname : Text) (forward : Bool) (p : Plugin)
      → Reach p.pending
          (register_pending_for_network docker now net name hostname forward p).pending
  unfolding register_pending_for_network
  network_steps net name hostname forward p = elim (Option-cases (docker.network_inspect net)) [
    | inl h ↦ rw (h, register_pending_for_network) here
    | inr (n, h) ↦ elim (Bool-cases (is_dhcp_plugin n.driver)) [
      | inl d ↦
          rw (h, register_pending_for_network, d)
            (next (next here (pushes now n.id name hostname forward))
              (upserts now n.id name hostname))
      | inr d ↦ rw (h, register_pending_for_network, d) here
    ]
  ]

  create_steps :
      (name : Text) (ctr : Container) (p : Plugin)
      → Reach p.pending (on_create docker now name ctr p).pending
  unfolding on_create
  create_steps name ctr p = elim (Bool-cases (is_special ctr.network_mode)) [
    | inl h ↦ rw (h, on_create) here
    | inr h ↦
        rw (h, on_create)
          (network_steps ctr.network_mode name (effective_hostname ctr.id ctr.hostname name) true p)
  ]

  start_steps :
      (os : Outcome) (name hostname : Text) (networks : Dict Settings) (p : Plugin)
      → Reach p.pending (on_start docker now os name hostname networks p).pending
  unfolding on_start
  start_steps os name hostname [] p = here
  start_steps os name hostname ((net_name, settings) ∷ networks) p =
      elim (Bool-cases (is_empty settings.endpoint_id)) [
        | inl h ↦
            rw (h, on_start)
              (Reach-join (network_meta_steps net_name name hostname p)
                (start_steps os name hostname networks _))
        | inr h ↦
            rw (h, on_start)
              (Reach-join (network_meta_steps net_name name hostname p)
                (start_steps os name hostname networks _))
      ]

  die_steps :
      (name hostname : Text) (networks : Dict Settings) (p : Plugin)
      → Reach p.pending (on_die docker now name hostname networks p).pending
  unfolding on_die
  die_steps name hostname [] p = here
  die_steps name hostname ((net_name, settings) ∷ networks) p =
      Reach-join (network_steps net_name name hostname false p) (die_steps name hostname networks _)

  connect_steps :
      (net_id : Text) (ctr : Container) (p : Plugin)
      → Reach p.pending (on_connect docker now net_id ctr p).pending
  unfolding on_connect
  connect_steps net_id ctr p = next here (upserts now net_id _ _)

  -- Whatever message arrives, what it does to the pending containers is a sequence of pushes and of
  -- writes of metadata: what holds after every such sequence holds after every message.
  pub on_message_steps :
      (os : Outcome) (msg : Message) (p : Plugin)
      → Reach p.pending (on_message docker now os msg p).pending
  on_message_steps os msg p =
      on_message-cases docker now (λ q. Reach p.pending q.pending) os msg p here
        (λ name ctr e. create_steps name ctr p)
        (λ name hostname networks. start_steps os name hostname networks p)
        (λ name hostname networks e. die_steps name hostname networks p)
        (λ net_id ctr. connect_steps net_id ctr p)
