-- ===== src/Cache/Ops/Delete.antt =====
-- DeleteEndpoint and Delete of pkg/plugin/cache.go, as the lookups see them.
use docker_net_dhcp.Shared.{◌&&◌, none, some, if◌then◌else◌, ◌≡◌, arith, Option-cases, inl, inr}
use docker_net_dhcp.Shared.Text.{Text, str_eq, str_eq_iff}
use docker_net_dhcp.Shared.Dict
use docker_net_dhcp.Shared.Dict.{Dict, get-put, get-del}
use docker_net_dhcp.Cache.State.{NetworkState, or_made}
use docker_net_dhcp.Cache.Disk.{NetworkCache, Outcome}
use docker_net_dhcp.Cache.Ops.Lookup.{networks-save}
use docker_net_dhcp.Cache.Ops.{
  get_metadata, get_endpoint, delete_endpoint, delete_network, drop_key, endpoint_in, metadata_in,
}

module _ (os : Outcome) (c : NetworkCache) where
  abbrev without_endpoint : Text → NetworkState → NetworkState
  without_endpoint e net = record net {
    endpoints = drop_key e net.endpoints;
    metadata_map = drop_key e net.metadata_map;
  }

  entry-delete_endpoint :
      (n e n' : Text) (net : NetworkState)
      → Dict.get n c.networks ≡ some net
      → Dict.get n' (delete_endpoint os n e c).0.networks
        ≡ (if str_eq n n' then some (without_endpoint e net) else Dict.get n' c.networks)
  unfolding delete_endpoint
  entry-delete_endpoint n e n' net h =
      rw (h, delete_endpoint, networks-save) (get-put n n' _ c.networks)

  endpoint_in-without :
      (e e' : Text) (net : NetworkState)
      → endpoint_in e' (some (without_endpoint e net))
        ≡ (if str_eq e e' then none else endpoint_in e' (some net))
  endpoint_in-without e e' net = ground (arith, get-del e e' (or_made net.endpoints))

  metadata_in-without :
      (e e' : Text) (net : NetworkState)
      → metadata_in e' (some (without_endpoint e net))
        ≡ (if str_eq e e' then none else metadata_in e' (some net))
  metadata_in-without e e' net = ground (arith, get-del e e' (or_made net.metadata_map))

  pub delete_endpoint_missing :
      (n e : Text) → Dict.get n c.networks ≡ none → delete_endpoint os n e c ≡ (c, none)
  unfolding delete_endpoint
  delete_endpoint_missing n e h = rw (h, delete_endpoint)

  -- DeleteEndpoint takes out both the endpoint and its metadata, and no other endpoint or metadata;
  -- where the network is missing, these lookups find nothing before or after.
  pub get-delete_endpoint :
      (n e n' e' : Text)
      → (get_endpoint n' e' (delete_endpoint os n e c).0
          ≡ (if str_eq n n' && str_eq e e' then none else get_endpoint n' e' c))
        × (get_metadata n' e' (delete_endpoint os n e c).0
            ≡ (if str_eq n n' && str_eq e e' then none else get_metadata n' e' c))
  unfolding get_endpoint get_metadata
  get-delete_endpoint n e n' e' = elim (Option-cases (Dict.get n c.networks)) [
    | inl h ↦ rw (delete_endpoint_missing n e h) (ground (arith, h, str_eq_iff n n'))
    | inr (net, h) ↦ ground (
      arith,
      h,
      entry-delete_endpoint n e n' net h,
      str_eq_iff n n',
      endpoint_in-without e e' net,
      metadata_in-without e e' net,
    )
  ]

  -- Delete takes out the network with all that is stored below it, and no other network.
  pub get-delete_network :
      (n n' e' : Text)
      → (get_endpoint n' e' (delete_network os n c).0
          ≡ (if str_eq n n' then none else get_endpoint n' e' c))
        × (get_metadata n' e' (delete_network os n c).0
            ≡ (if str_eq n n' then none else get_metadata n' e' c))
        × (Dict.get n' (delete_network os n c).0.networks
            ≡ (if str_eq n n' then none else Dict.get n' c.networks))
  unfolding get_endpoint get_metadata delete_network
  get-delete_network n n' e' = rw networks-save (ground (arith, get-del n n' c.networks))
