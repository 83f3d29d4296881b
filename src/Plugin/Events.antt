-- ===== src/Plugin/Events.antt =====
-- The Docker event listener of pkg/plugin/plugin.go: watchDockerEvents, from a message on, and the
-- two functions by which it registers a container. Docker's answers are a parameter.
pub mod Handled
pub mod Steps
pub mod Queues
pub mod Endpoints
pub mod Sample
mod Examples
use docker_net_dhcp.Shared.{
  ℕ, [], ◌∷◌, Bool, true, false, ◌&&◌, ◌||◌, not, Option, none, some, if◌then◌else◌,
}
use docker_net_dhcp.Shared.Text.{Text, text, str_eq, is_empty, trim_prefix}
use docker_net_dhcp.Shared.Dict.{Dict}
use docker_net_dhcp.Driver.{is_dhcp_plugin}
use docker_net_dhcp.Cache.Disk.{Outcome}
use docker_net_dhcp.Cache.Ops.{set_metadata}
use docker_net_dhcp.Cache.Reconcile.{Inspect}
use docker_net_dhcp.Pending.{push_pending_container, upsert_pending_meta}
use docker_net_dhcp.Plugin.{Plugin, effective_hostname}

-- a container's settings on a network
pub record Settings : Type 0 where
  pub network_id : Text
  pub endpoint_id : Text

-- the answer to ContainerInspect, as far as the plugin reads it
pub record Container : Type 0 where
  pub id : Text
  pub name : Text
  pub hostname : Text
  pub network_mode : Text
  pub networks : Dict Settings

pub record Docker : Type 0 where
  pub container_inspect : Text → Option Container
  pub network_inspect : Text → Option Inspect

-- a message of Docker's event stream, with the two attributes that the listener reads
pub record Message : Type 0 where
  pub type_of : Text
  pub action : Text
  pub actor_id : Text
  pub name : Text
  pub container : Text

-- the network modes for which nothing is registered
abbrev pub is_special : Text → Bool
is_special net_name =
    is_empty net_name
    || (str_eq net_name (text "default")
        || (str_eq net_name (text "bridge")
            || (str_eq net_name (text "host") || str_eq net_name (text "none"))))

module _ (docker : Docker) (now : ℕ) where
  -- registerPendingForNetworkMeta
  unfoldable pub register_pending_for_network_meta : Text → Text → Text → Plugin → Plugin
  register_pending_for_network_meta net name hostname p = elim (docker.network_inspect net) [
    | none ↦ p
    | some n ↦
        if is_dhcp_plugin n.driver
        then record p { pending = upsert_pending_meta now n.id name hostname p.pending }
        else p
  ]

  -- registerPendingForNetwork
  unfoldable pub register_pending_for_network : Text → Text → Text → Bool → Plugin → Plugin
  register_pending_for_network net name hostname forward p = elim (docker.network_inspect net) [
    | none ↦ p
    | some n ↦
        if is_dhcp_plugin n.driver
        then record p {
          pending =
              upsert_pending_meta now n.id name hostname
                (push_pending_container now n.id name hostname forward p.pending);
        }
        else p
  ]

  -- a create event, once the container is inspected
  unfoldable pub on_create : Text → Container → Plugin → Plugin
  unfolding register_pending_for_network
  on_create name ctr p =
      let hostname = effective_hostname ctr.id ctr.hostname name in
      if is_special ctr.network_mode
      then p
      else register_pending_for_network ctr.network_mode name hostname true p

  -- the loop of a start event over the container's networks
  unfoldable pub on_start : Outcome → Text → Text → Dict Settings → Plugin → Plugin
  unfolding register_pending_for_network_meta
  on_start os name hostname [] p = p
  on_start os name hostname ((net_name, settings) ∷ networks) p =
      let q = register_pending_for_network_meta net_name name hostname p in
      on_start os name hostname networks (
        if is_empty settings.endpoint_id then q else record q {
          cache =
              set_metadata now os settings.network_id settings.endpoint_id
                (record { name = name; hostname = hostname; created_at = now }) q.cache;
        })

  -- the loop of a die event
  unfoldable pub on_die : Text → Text → Dict Settings → Plugin → Plugin
  unfolding register_pending_for_network
  on_die name hostname [] p = p
  on_die name hostname ((net_name, settings) ∷ networks) p =
      on_die name hostname networks (register_pending_for_network net_name name hostname false p)

  -- a network's connect event, once the container is inspected
  unfoldable pub on_connect : Text → Container → Plugin → Plugin
  on_connect net_id ctr p =
      let name = trim_prefix (text "/") ctr.name in
      let hostname = effective_hostname ctr.id ctr.hostname name in
      record p { pending = upsert_pending_meta now net_id name hostname p.pending }

  -- the body of the loop of watchDockerEvents for a message
  unfoldable pub on_message : Outcome → Message → Plugin → Plugin
  unfolding on_create on_start on_die on_connect
  on_message os msg p =
      let name = trim_prefix (text "/") msg.name in
      if str_eq msg.type_of (text "container")
        && (str_eq msg.action (text "create") || str_eq msg.action (text "start"))
      then elim (docker.container_inspect msg.actor_id) [
        | none ↦ p
        | some ctr ↦
            if str_eq msg.action (text "create")
            then on_create name ctr p
            else on_start os name (effective_hostname ctr.id ctr.hostname name) ctr.networks p
      ]
      else if str_eq msg.type_of (text "container") && str_eq msg.action (text "die")
      then elim (docker.container_inspect msg.actor_id) [
        | none ↦ p
        | some ctr ↦ on_die name (effective_hostname ctr.id ctr.hostname name) ctr.networks p
      ]
      else if str_eq msg.type_of (text "network") && str_eq msg.action (text "connect")
      then elim (docker.container_inspect msg.container) [
        | none ↦ p
        | some ctr ↦ on_connect msg.actor_id ctr p
      ]
      else p
