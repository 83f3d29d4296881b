-- ===== src/Plugin/Events/Handled.antt =====
-- The branches of a message in watchDockerEvents of pkg/plugin/plugin.go.
use docker_net_dhcp.Shared.{ℕ, true, ◌&&◌, ◌||◌, ◌≡◌, arith, Option-cases, Bool-cases, inl, inr}
use docker_net_dhcp.Shared.Text.{Text, text, str_eq, trim_prefix}
use docker_net_dhcp.Shared.Dict.{Dict}
use docker_net_dhcp.Cache.Disk.{Outcome}
use docker_net_dhcp.Plugin.{Plugin, effective_hostname}
use docker_net_dhcp.Plugin.Events.{
  Docker, Container, Settings, Message, on_create, on_start, on_die, on_connect, on_message,
}

module _ (docker : Docker) (now : ℕ) where
  -- a message does nothing, or what one of the four handlers does
  pub on_message-cases :
      (P : Plugin → Type 0) (os : Outcome) (msg : Message) (p : Plugin)
      → P p
      → ((name : Text) (ctr : Container)
          → str_eq msg.action (text "create") ≡ true
          → P (on_create docker now name ctr p))
      → ((name hostname : Text) (networks : Dict Settings)
          → P (on_start docker now os name hostname networks p))
      → ((name hostname : Text) (networks : Dict Settings)
          → str_eq msg.action (text "die") ≡ true
          → P (on_die docker now name hostname networks p))
      → ((net_id : Text) (ctr : Container) → P (on_connect docker now net_id ctr p))
      → P (on_message docker now os msg p)
  unfolding on_message
  on_message-cases P os msg p same create start die connect =
      elim (Bool-cases (
        str_eq msg.type_of (text "container")
        && (str_eq msg.action (text "create") || str_eq msg.action (text "start")))) [
          | inl h ↦ elim (Option-cases (docker.container_inspect msg.actor_id)) [
            | inl e ↦ rw (h, e, on_message) same
            | inr (ctr, e) ↦ elim (Bool-cases (str_eq msg.action (text "create"))) [
              | inl c ↦ rw (h, e, on_message, c) (create (trim_prefix (text "/") msg.name) ctr c)
              | inr c ↦
                  rw (h, e, on_message, c)
                    (start (trim_prefix (text "/") msg.name)
                      (effective_hostname ctr.id ctr.hostname (trim_prefix (text "/") msg.name))
                      ctr.networks)
            ]
          ]
          | inr h ↦
              elim (Bool-cases
                (str_eq msg.type_of (text "container") && str_eq msg.action (text "die"))) [
                  | inl d ↦ elim (Option-cases (docker.container_inspect msg.actor_id)) [
                    | inl e ↦ rw (h, d, e, on_message) same
                    | inr (ctr, e) ↦
                        rw (h, d, e, on_message)
                          (die (trim_prefix (text "/") msg.name)
                            (effective_hostname ctr.id ctr.hostname
                              (trim_prefix (text "/") msg.name))
                            ctr.networks (ground arith))
                  ]
                  | inr d ↦
                      elim (Bool-cases (
                        str_eq msg.type_of (text "network")
                        && str_eq msg.action (text "connect"))) [
                          | inl k ↦ elim (Option-cases (docker.container_inspect msg.container)) [
                            | inl e ↦ rw (h, d, k, e, on_message) same
                            | inr (ctr, e) ↦ rw (h, d, k, e, on_message) (connect msg.actor_id ctr)
                          ]
                          | inr k ↦ rw (h, d, k, on_message) same
                        ]
                ]
        ]
