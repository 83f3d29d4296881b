-- ===== src/Cache/History/Restart.antt =====
-- The cache of pkg/plugin/cache.go after a restart of the plugin, whatever happened before it.
use docker_net_dhcp.Shared.{Option}
use docker_net_dhcp.Shared.Text.{Text}
use docker_net_dhcp.Shared.Dict
use docker_net_dhcp.Shared.Dict.{Dict}
use docker_net_dhcp.Driver.{DhcpNetworkOptions}
use docker_net_dhcp.Json.{Json}
use docker_net_dhcp.Cache.Disk.{NetworkCache}
use docker_net_dhcp.Cache.Maps.{IsStored}
use docker_net_dhcp.Cache.History.{Step, sets_network, Reach, here, next}

module _ (decode_opts : Dict Text → Option DhcpNetworkOptions) where
  -- what Set is given are maps
  abbrev pub GivesMaps : {c d : NetworkCache} → Step decode_opts c d → Type 0
  GivesMaps (sets_network os state) = IsStored state
  GivesMaps _ = Unit

  abbrev pub AllMaps : {c d : NetworkCache} → Reach decode_opts c d → Type 0
  AllMaps here = Unit
  AllMaps (next r st) = AllMaps r × GivesMaps st
