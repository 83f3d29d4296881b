-- ===== src/Cache/Load/Back.antt =====
-- The round trip of pkg/plugin/cache.go: what `save` wrote, `load` reads.
use docker_net_dhcp.Shared.{
  [], ◌∷◌, true, false, Option, none, some, ◌≡◌, refl, ap, arith, inl, inr,
}
use mathlib.Core.Option
use docker_net_dhcp.Shared.Text.{Text}
use docker_net_dhcp.Shared.Dict
use docker_net_dhcp.Shared.Dict.{Dict}
use docker_net_dhcp.Json.{Json}
use docker_net_dhcp.Json.Decode.{
  decode_map, map_values, decode_entries-append, map_values-IsDistinct,
}
use docker_net_dhcp.Shared.Dict.Each.{Each-weaken}
use docker_net_dhcp.Cache.State.{EndpointState, ContainerMetadata, NetworkState}
use docker_net_dhcp.Cache.Disk.{Disk, document, Outcome, NetworkCache, save}
use docker_net_dhcp.Cache.Disk.Atomic.{save_atomic}
use docker_net_dhcp.Cache.Ops.{get_endpoint, get_metadata, endpoint_in, metadata_in}
use docker_net_dhcp.Cache.Json.{encode_network, encode_networks}
use docker_net_dhcp.Cache.Maps.{IsCache}
use docker_net_dhcp.Cache.Load.Entries.{normal, decode_network-encode}
use docker_net_dhcp.Cache.Load.{no_network, decode_network, unmarshal, load, new_network_cache}

unmarshal-encode_networks :
    (partial : Json → Dict NetworkState) (networks : Dict NetworkState)
    → IsCache networks
    → unmarshal partial (encode_networks networks) ≡ map_values normal networks
unfolding unmarshal encode_networks decode_map
unmarshal-encode_networks partial networks c =
    rw
      (
        unmarshal,
        decode_entries-append decode_network no_network encode_network normal networks []
            (Each-weaken decode_network-encode networks c.each_stored)
            (map_values-IsDistinct normal networks c.networks_distinct),
      )
      refl

-- A cache that was saved without an error is back after a restart, network by network and in the
-- same order: the networks that a new cache reads from the file are those of the old one, in which
-- an empty map of endpoints, containers or metadata has become nil. This is for caches in whose maps
-- each key stands once and a file that can be read.
pub load-save :
    (os : Outcome) (c : NetworkCache) (partial : Json → Dict NetworkState)
    → IsCache c.networks
    → (save os c).1 ≡ none
    → (new_network_cache partial true (save os c).0.disk).networks ≡ map_values normal c.networks
unfolding save new_network_cache load
load-save os c partial h saved = elim (save_atomic os c).1 [
  | inl (none_failed, d) ↦ rw d (unmarshal-encode_networks partial c.networks h)
  | inr (bad, same) ↦ absurd (bad saved)
]

get-map_values :
    (k : Text) (networks : Dict NetworkState)
    → Dict.get k (map_values normal networks) ≡ Option.map normal (Dict.get k networks)
unfolding Dict.get
get-map_values k [] = refl
get-map_values k ((j, net) ∷ networks) = ground (arith, get-map_values k networks)

endpoint_in-normal :
    (ep : Text) (net : NetworkState)
    → endpoint_in ep (some (normal net)) ≡ endpoint_in ep (some net)
unfolding Dict.get
endpoint_in-normal ep net = go net.endpoints
  where
    go :
        (m : Option (Dict EndpointState))
        → endpoint_in ep (some (normal (record net { endpoints = m })))
          ≡ endpoint_in ep (some (record net { endpoints = m }))
    go none = refl
    go (some []) = refl
    go (some (e ∷ m)) = refl

metadata_in-normal :
    (ep : Text) (net : NetworkState)
    → metadata_in ep (some (normal net)) ≡ metadata_in ep (some net)
unfolding Dict.get
metadata_in-normal ep net = go net.metadata_map
  where
    go :
        (m : Option (Dict ContainerMetadata))
        → metadata_in ep (some (normal (record net { metadata_map = m })))
          ≡ metadata_in ep (some (record net { metadata_map = m }))
    go none = refl
    go (some []) = refl
    go (some (e ∷ m)) = refl

pub answers-load :
    (c : NetworkCache) (d : Disk) (partial : Json → Dict NetworkState) (n ep : Text)
    → IsCache c.networks
    → d.file ≡ some (document (encode_networks c.networks))
    → let again = new_network_cache partial true d in
      (get_endpoint n ep again ≡ get_endpoint n ep c)
      × (get_metadata n ep again ≡ get_metadata n ep c)
      × (Dict.has n again.networks ≡ Dict.has n c.networks)
unfolding get_endpoint get_metadata Dict.has new_network_cache load
answers-load c d partial n ep h file =
    rw
      (
        file,
        load,
        unmarshal-encode_networks partial c.networks h,
        Dict.has,
        get-map_values n c.networks,
      )
      (go (Dict.get n c.networks))
  where
    go :
        (o : Option NetworkState)
        → (endpoint_in ep (Option.map normal o) ≡ endpoint_in ep o)
          × (metadata_in ep (Option.map normal o) ≡ metadata_in ep o)
          × ((elim (Option.map normal o) [ none ↦ false | some v ↦ true ])
              ≡ (elim o [ none ↦ false | some v ↦ true ]))
    go none = (refl, refl, refl)
    go (some net) = (endpoint_in-normal ep net, metadata_in-normal ep net, refl)

-- What the plugin asks of its cache has the same answers after a restart as when the cache was last
-- saved without an error: every endpoint and the metadata of every endpoint, and which networks
-- there are. This is for caches in whose maps each key stands once and a file that can be read.
pub restart_answers :
    (os : Outcome) (c : NetworkCache) (partial : Json → Dict NetworkState) (n ep : Text)
    → IsCache c.networks
    → (save os c).1 ≡ none
    → let again = new_network_cache partial true (save os c).0.disk in
      (get_endpoint n ep again ≡ get_endpoint n ep c)
      × (get_metadata n ep again ≡ get_metadata n ep c)
      × (Dict.has n again.networks ≡ Dict.has n c.networks)
restart_answers os c partial n ep h saved = elim (save_atomic os c).1 [
  | inl (none_failed, d) ↦
      answers-load c (save os c).0.disk partial n ep h (ap (λ disk. disk.file) d)
  | inr (bad, same) ↦ absurd (bad saved)
]
