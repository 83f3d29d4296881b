-- ===== src/Cache/Reconcile.antt =====
-- `Reconcile` of pkg/plugin/cache.go, from Docker's answer to NetworkList on. `decodeOpts` runs the
-- mapstructure library, so it is a parameter: it gives the options, or nothing on an error.
pub mod Networks
pub mod Orphans
pub mod Effect
mod Examples
use docker_net_dhcp.Shared.{
  ℕ, List, [], ◌∷◌, Bool, true, false, ◌&&◌, ◌||◌, not, Option, none, some, if◌then◌else◌,
}
use docker_net_dhcp.Shared.Text.{Text, text, str_eq, is_empty}
use docker_net_dhcp.Shared.Dict
use docker_net_dhcp.Shared.Dict.{Dict, keys}
use docker_net_dhcp.Shared.Dict.Range.{sweep}
use docker_net_dhcp.Driver.{DhcpNetworkOptions, is_dhcp_plugin}
use docker_net_dhcp.Cache.State.{EndpointState, NetworkState}
use docker_net_dhcp.Cache.Disk.{NetworkCache, Outcome, save}
use docker_net_dhcp.Cache.Ops.{drop_key}

-- network.Inspect of Docker's API, as far as the plugin reads it; the containers are given with the
-- id of their endpoint
pub record Inspect : Type 0 where
  pub id : Text
  pub driver : Text
  pub options : Dict Text
  pub containers : Dict Text

-- what becomes of the call: the context is cancelled during the initial delay, or NetworkList fails
-- or answers
pub data Answer : Type 0 where
  cancelled : Answer
  list_failed : Answer
  listed : List Inspect → Answer

abbrev pub global : Text
global = text "global"

-- the networks of this plugin, by their id
unfoldable pub plugin_networks : List Inspect → Dict Inspect → Dict Inspect
plugin_networks [] nets = nets
plugin_networks (n ∷ ns) nets =
    plugin_networks ns (if is_dhcp_plugin n.driver then Dict.put n.id n nets else nets)

-- newMap
unfoldable pub container_map : Dict Text → Dict Text → Dict Text
container_map [] m = m
container_map ((ctr_id, endpoint_id) ∷ ctrs) m = container_map ctrs (Dict.put endpoint_id ctr_id m)

-- activeEndpoints
unfoldable pub active_endpoints : Dict Text → Dict Bool → Dict Bool
active_endpoints [] m = m
active_endpoints ((ctr_id, endpoint_id) ∷ ctrs) m =
    active_endpoints ctrs (if is_empty endpoint_id then m else Dict.put endpoint_id true m)

-- `activeEndpoints[epID]`, which is false for a missing key
abbrev pub is_active : Dict Bool → Text → Bool
is_active m ep_id = elim (Dict.get ep_id m) [ none ↦ false | some b ↦ b ]

-- one round of the loop over `existing.Endpoints`
unfoldable pub prune_orphan : Dict Bool → Text → NetworkState × Bool → NetworkState × Bool
prune_orphan active ep_id (existing, changed) = elim existing.endpoints [
  | none ↦ (existing, changed)
  | some endpoints ↦ elim (Dict.get ep_id endpoints) [
    | none ↦ (existing, changed)
    | some ep ↦ if is_active active ep_id then (existing, changed) else (
      record existing {
        endpoints = some (Dict.del ep_id endpoints);
        metadata_map = drop_key ep_id existing.metadata_map;
      },
      true,
    )
  ]
]

unfoldable pub prune_orphans : Dict Bool → List Text → NetworkState × Bool → NetworkState × Bool
unfolding prune_orphan
prune_orphans active [] s = s
prune_orphans active (ep_id ∷ ids) s = prune_orphans active ids (prune_orphan active ep_id s)

-- the ids of a map that may be nil
abbrev pub endpoint_ids : Option (Dict EndpointState) → List Text
endpoint_ids none = []
endpoint_ids (some m) = keys m

-- the rest of the round, on the adopted entry
unfoldable pub refresh : Inspect → NetworkState × Bool → NetworkState × Bool
unfolding prune_orphans container_map active_endpoints
refresh n (existing, changed) =
    prune_orphans (active_endpoints n.containers []) (endpoint_ids existing.endpoints)
      (record existing { container_map = some (container_map n.containers []) }, changed)

-- a ghost: a network other than "global" that Docker does not have
abbrev pub is_ghost : Dict Inspect → Text → NetworkState → Bool
is_ghost nets id net = not (str_eq id global) && not (Dict.has id nets)

module _ (decode_opts : Dict Text → Option DhcpNetworkOptions) where
  -- the entry that the cache has for a network of Docker's, or a new one; nothing if the options
  -- of a new one do not decode
  unfoldable pub adopt : Text → Inspect → Option NetworkState → Option (NetworkState × Bool)
  adopt id n (some existing) = some (existing, false)
  adopt id n none = elim (decode_opts n.options) [
    | none ↦ none
    | some opts ↦ some (
      record {
        id = id;
        options = opts;
        endpoints = some [];
        container_map = none;
        metadata_map = none;
      },
      true,
    )
  ]

  -- one round of the loop over `dockerNets`
  unfoldable pub reconcile_network :
      Text → Inspect → Dict NetworkState × Bool → Dict NetworkState × Bool
  unfolding adopt refresh
  reconcile_network id n (networks, changed) = elim (adopt id n (Dict.get id networks)) [
    | none ↦ (networks, changed)
    | some (existing, added) ↦
        let (existing', changed') = refresh n (existing, changed || added) in
        (Dict.put id existing' networks, changed')
  ]

  unfoldable pub reconcile_networks :
      Dict Inspect → Dict NetworkState × Bool → Dict NetworkState × Bool
  unfolding reconcile_network
  reconcile_networks [] s = s
  reconcile_networks ((id, n) ∷ nets) s = reconcile_networks nets (reconcile_network id n s)

  -- both loops
  unfoldable pub reconciled : Dict Inspect → Dict NetworkState → Dict NetworkState × Bool
  unfolding reconcile_networks
  reconciled nets networks =
      reconcile_networks nets (sweep (is_ghost nets) (keys networks) (networks, false))

  -- Reconcile; the error of the save is dropped
  unfoldable pub reconcile : Outcome → Answer → NetworkCache → NetworkCache
  unfolding reconciled plugin_networks
  reconcile os cancelled c = c
  reconcile os list_failed c = c
  reconcile os (listed ns) c =
      let (networks, changed) = reconciled (plugin_networks ns []) c.networks in
      if changed
      then (save os (record c { networks = networks })).0
      else record c { networks = networks }
