-- ===== src/Plugin.antt =====
-- The state of `Plugin` in pkg/plugin/plugin.go that its requests and Docker's events share, and
-- what it asks of the kernel and of Docker.
pub mod Events
pub mod Background
use docker_net_dhcp.Shared.{
  ℕ, ◌+◌, List, [], ◌∷◌, ◌++◌, Bool, true, false, ◌&&◌, Option, none, some, if◌then◌else◌, leb,
  take, length,
}
use docker_net_dhcp.Shared.Text.{Text, str_eq}
use docker_net_dhcp.Shared.Dict.{Dict}
use docker_net_dhcp.Driver.{DhcpNetworkOptions}
use docker_net_dhcp.Cache.Disk.{NetworkCache}
use docker_net_dhcp.Pending.{Pending}

pub record JoinHint : Type 0 where
  pub ipv4 : Option Text
  pub ipv6 : Option Text
  pub gateway : Text
  pub hostname : Text
  pub seed_name : Text
  pub mac_seed : Text
  pub user_specified_mac : Bool

-- joinHint{}
abbrev pub no_hint_yet : JoinHint
no_hint_yet = record {
  ipv4 = none;
  ipv6 = none;
  gateway = [];
  hostname = [];
  seed_name = [];
  mac_seed = [];
  user_specified_mac = false;
}

-- the part of dhcpManager that a request reads or sets
pub record Manager : Type 0 where
  pub network_id : Text
  pub endpoint_id : Text
  pub sandbox_key : Text
  pub options : DhcpNetworkOptions
  pub last_ip : Option Text
  pub last_ipv6 : Option Text
  pub hostname : Text

-- what a request asks of the kernel, and the managers that it stops
pub data Call : Type 0 where
  link_add : (host peer mac : Text) → Call
  link_del : (host : Text) → Call
  stop : (endpoint_id : Text) → Call
  link_set_mac : (container_link mac : Text) → Call

pub record Plugin : Type 0 where
  pub cache : NetworkCache
  pub pending : Pending
  pub join_hints : Dict JoinHint
  pub persistent_dhcp : Dict Manager
  pub calls : List Call

-- `len(ctr.ID) >= 12 && hostname == ctr.ID[:12]`: the name that Docker gives by default
abbrev pub is_default_hostname : Text → Text → Bool
is_default_hostname id hostname = leb 12 (length id) && str_eq hostname (take 12 id)

-- the hostname that is registered for a container
abbrev pub effective_hostname : Text → Text → Text → Text
effective_hostname id hostname name = if is_default_hostname id hostname then name else hostname
