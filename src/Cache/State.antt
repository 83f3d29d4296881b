-- ===== src/Cache/State.antt =====
-- The records of pkg/plugin/cache.go. A Go map that may be nil is an `Option` of a map.
use docker_net_dhcp.Shared.{ℕ, [], Option, none, some}
use docker_net_dhcp.Shared.Text.{Text}
use docker_net_dhcp.Shared.Dict.{Dict}
use docker_net_dhcp.Driver.{DhcpNetworkOptions, pos}
use mathlib.Core.Bool.{false}

pub record EndpointState : Type 0 where
  pub id : Text
  pub sandbox_key : Text
  pub mac_address : Text
  pub ip : Text
  pub ipv6 : Text
  pub gateway : Text
  pub hostname : Text
  pub seed_name : Text

-- The time is in nanoseconds since Go's zero time, so 0 is the time that `IsZero` reports.
pub record ContainerMetadata : Type 0 where
  pub name : Text
  pub hostname : Text
  pub created_at : ℕ

pub record NetworkState : Type 0 where
  pub id : Text
  pub options : DhcpNetworkOptions
  pub endpoints : Option (Dict EndpointState)
  pub container_map : Option (Dict Text)
  pub metadata_map : Option (Dict ContainerMetadata)

-- DHCPNetworkOptions{}
abbrev pub no_options : DhcpNetworkOptions
no_options = record {
  bridge = [];
  ipv6 = false;
  lease_timeout = pos 0;
  ignore_conflicts = false;
  skip_routes = false;
  mac_format = [];
}

-- `if m == nil { m = make(map[string]V) }`
abbrev pub or_made {ℓ} : {V : Type ℓ} → Option (Dict V) → Dict V
or_made none = []
or_made (some m) = m
