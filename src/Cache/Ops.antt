-- ===== src/Cache/Ops.antt =====
-- The methods of `NetworkCache` in pkg/plugin/cache.go but for the reconciliation. A lookup that
-- Go reports by `(value, ok)` is an `Option`; the clock and the outcome of a save are arguments.
pub mod Prune
pub mod Lookup
pub mod Delete
mod Examples
use docker_net_dhcp.Shared.{
  ℕ, ◌-◌, List, [], ◌∷◌, Bool, true, false, Option, none, some, map, if◌then◌else◌, ltb, ◌==◌,
}
use docker_net_dhcp.Shared.Text.{Text}
use mathlib.Core.Option
use docker_net_dhcp.Shared.Dict
use docker_net_dhcp.Shared.Dict.{Dict, keys}
use docker_net_dhcp.Shared.Dict.Range.{sweep}
use docker_net_dhcp.Cache.State.{
  EndpointState, ContainerMetadata, NetworkState, no_options, or_made,
}
use docker_net_dhcp.Cache.Disk.{NetworkCache, Outcome, SaveError, save}

-- what a method that changes the cache may report
pub data CacheError : Type 0 where
  not_found : Text → CacheError
  not_saved : SaveError → CacheError

abbrev pub saved : Outcome → NetworkCache → NetworkCache × Option CacheError
saved os c = let (c', e) = save os c in (c', Option.map not_saved e)

-- Get
unfoldable pub get_network : Text → NetworkCache → Option NetworkState
get_network id c = elim (Dict.get id c.networks) [
  | none ↦ none
  | some state ↦ some (record state {
    endpoints = some (or_made state.endpoints);
    metadata_map = some (or_made state.metadata_map);
  })
]

-- GetAll
unfoldable pub get_all : NetworkCache → List NetworkState
get_all c = Dict.values c.networks

-- the second half of GetMetadata, below a network that may be missing
abbrev pub metadata_in : Text → Option NetworkState → Option ContainerMetadata
metadata_in endpoint_id none = none
metadata_in endpoint_id (some net) = elim net.metadata_map [
  | none ↦ none
  | some m ↦ Dict.get endpoint_id m
]

-- GetMetadata
unfoldable pub get_metadata : Text → Text → NetworkCache → Option ContainerMetadata
get_metadata network_id endpoint_id c = metadata_in endpoint_id (Dict.get network_id c.networks)

-- the second half of GetEndpoint, below a network that may be missing
abbrev pub endpoint_in : Text → Option NetworkState → Option EndpointState
endpoint_in endpoint_id none = none
endpoint_in endpoint_id (some net) = elim net.endpoints [
  | none ↦ none
  | some m ↦ Dict.get endpoint_id m
]

-- GetEndpoint
unfoldable pub get_endpoint : Text → Text → NetworkCache → Option EndpointState
get_endpoint network_id endpoint_id c = endpoint_in endpoint_id (Dict.get network_id c.networks)

-- the entry that SetMetadata makes for a network that the cache lacks, such as "global"
abbrev pub placeholder : Text → NetworkState
placeholder network_id = record {
  id = network_id;
  options = no_options;
  endpoints = some [];
  container_map = none;
  metadata_map = none;
}

abbrev pub or_placeholder : Text → Option NetworkState → NetworkState
or_placeholder network_id none = placeholder network_id
or_placeholder network_id (some net) = net

-- `if meta.CreatedAt.IsZero() { meta.CreatedAt = time.Now() }`
abbrev pub stamped : ℕ → ContainerMetadata → ContainerMetadata
stamped now meta = if meta.created_at == 0 then record meta { created_at = now } else meta

-- SetMetadata; the error of the save is dropped
unfoldable pub set_metadata :
    ℕ → Outcome → Text → Text → ContainerMetadata → NetworkCache → NetworkCache
set_metadata now os network_id endpoint_id meta c =
    let net = or_placeholder network_id (Dict.get network_id c.networks) in
    let m = Dict.put endpoint_id (stamped now meta) (or_made net.metadata_map) in
    (save os (record c {
      networks = Dict.put network_id (record net { metadata_map = some m }) c.networks;
    })).0

-- `now.Sub(meta.CreatedAt) > maxAge`, for a `maxAge` that is not negative
abbrev pub is_expired : ℕ → ℕ → ContainerMetadata → Bool
is_expired now max_age meta = ltb max_age (now - meta.created_at)

-- one round of the outer loop of PruneMetadata
unfoldable pub prune_network : ℕ → ℕ → Text → Dict NetworkState × Bool → Dict NetworkState × Bool
prune_network now max_age net_id (networks, changed) = elim (Dict.get net_id networks) [
  | none ↦ (networks, changed)
  | some net ↦ elim net.metadata_map [
    | none ↦ (networks, changed)
    | some m ↦
        let (m', changed') =
          sweep (λ ep_id meta. is_expired now max_age meta) (keys m) (m, changed) in
        (
          (if changed'
              then Dict.put net_id (record net { metadata_map = some m' }) networks
              else networks),
          changed',
        )
  ]
]

unfoldable pub prune_networks :
    ℕ → ℕ → List Text → Dict NetworkState × Bool → Dict NetworkState × Bool
unfolding prune_network
prune_networks now max_age [] s = s
prune_networks now max_age (net_id ∷ ids) s =
    prune_networks now max_age ids (prune_network now max_age net_id s)

-- PruneMetadata; the error of the save is dropped
unfoldable pub prune_metadata : ℕ → Outcome → ℕ → NetworkCache → NetworkCache
unfolding prune_networks
prune_metadata now os max_age c =
    let (networks, changed) = prune_networks now max_age (keys c.networks) (c.networks, false) in
    if changed
    then (save os (record c { networks = networks })).0
    else record c { networks = networks }

-- a nil map of `state` is taken over from the entry that the cache has, or made
abbrev pub keep_map {ℓ} :
    {V : Type ℓ}
    → Option (Dict V)
    → (NetworkState → Option (Dict V))
    → Option NetworkState
    → Option (Dict V)
keep_map (some m) field existing = some m
keep_map none field none = some []
keep_map none field (some state) = field state

-- the state that Set stores
abbrev pub merged : NetworkState → Option NetworkState → NetworkState
merged state existing = record state {
  endpoints = keep_map state.endpoints (λ s. s.endpoints) existing;
  metadata_map = keep_map state.metadata_map (λ s. s.metadata_map) existing;
}

-- Set
unfoldable pub set_network :
    Outcome → NetworkState → NetworkCache → NetworkCache × Option CacheError
set_network os state c =
    let existing = Dict.get state.id c.networks in
    saved os (record c { networks = Dict.put state.id (merged state existing) c.networks })

-- SetEndpoint
unfoldable pub set_endpoint :
    Outcome → Text → EndpointState → NetworkCache → NetworkCache × Option CacheError
set_endpoint os network_id ep c = elim (Dict.get network_id c.networks) [
  | none ↦ (c, some (not_found network_id))
  | some net ↦
      let m = Dict.put ep.id ep (or_made net.endpoints) in
      saved os
        (record c { networks = Dict.put network_id (record net { endpoints = some m }) c.networks })
]

-- `if m != nil { delete(m, key) }`
abbrev pub drop_key {ℓ} : {V : Type ℓ} → Text → Option (Dict V) → Option (Dict V)
drop_key key none = none
drop_key key (some m) = some (Dict.del key m)

-- DeleteEndpoint
unfoldable pub delete_endpoint :
    Outcome → Text → Text → NetworkCache → NetworkCache × Option CacheError
delete_endpoint os network_id endpoint_id c = elim (Dict.get network_id c.networks) [
  | none ↦ (c, none)
  | some net ↦ saved os (record c {
    networks =
        Dict.put network_id
          (record net {
            endpoints = drop_key endpoint_id net.endpoints;
            metadata_map = drop_key endpoint_id net.metadata_map;
          })
          c.networks;
  })
]

-- Delete
unfoldable pub delete_network : Outcome → Text → NetworkCache → NetworkCache × Option CacheError
delete_network os id c = saved os (record c { networks = Dict.del id c.networks })
