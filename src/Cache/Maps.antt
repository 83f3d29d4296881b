-- ===== src/Cache/Maps.antt =====
-- The maps of pkg/plugin/cache.go as association lists in which each key stands once, and that every
-- method keeps them so.
pub mod Keep
use docker_net_dhcp.Shared.{[], ◌∷◌, Option, none, some, ◌≡◌, ◌∙◌, refl, ap, sym}
use docker_net_dhcp.Shared.Text.{Text}
use docker_net_dhcp.Shared.Dict
use docker_net_dhcp.Shared.Dict.{Dict}
use docker_net_dhcp.Shared.Dict.Distinct.{IsDistinct, put-IsDistinct, del-IsDistinct}
use docker_net_dhcp.Shared.Dict.Each.{Each}
use docker_net_dhcp.Cache.State.{NetworkState}

-- each key stands once in each of the network's maps
abbrev pub IsMap {ℓ} : {V : Type ℓ} → Option (Dict V) → Type 0
IsMap none = Unit
IsMap (some m) = IsDistinct m

pub record IsStored (net : NetworkState) : Type 0 where
  pub endpoints_distinct : IsMap net.endpoints
  pub containers_distinct : IsMap net.container_map
  pub metadata_distinct : IsMap net.metadata_map

-- each key stands once in the cache's map and in the maps of each network
pub record IsCache (networks : Dict NetworkState) : Type 0 where
  pub networks_distinct : IsDistinct networks
  pub each_stored : Each IsStored networks
