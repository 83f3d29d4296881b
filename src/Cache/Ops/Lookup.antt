-- ===== src/Cache/Ops/Lookup.antt =====
-- What the lookups of pkg/plugin/cache.go return after a change, whether or not the change reaches
-- the disk.
use docker_net_dhcp.Shared.{
  ℕ, false, ◌&&◌, none, some, if◌then◌else◌, ◌≡◌, ◌≢◌, ◌↔◌, arith, Option-cases, inl, inr,
}
use docker_net_dhcp.Shared.Text.{Text, str_eq, str_eq_iff}
use docker_net_dhcp.Shared.Dict
use docker_net_dhcp.Shared.Dict.{Dict, get-put}
use docker_net_dhcp.Cache.State.{EndpointState, ContainerMetadata, NetworkState, or_made}
use docker_net_dhcp.Cache.Disk.{NetworkCache, Outcome, save}
use docker_net_dhcp.Cache.Ops.{
  not_found, get_metadata, get_endpoint, set_metadata, stamped, set_network, set_endpoint, merged,
  or_placeholder,
}

pub networks-save : (os : Outcome) (c : NetworkCache) → (save os c).0.networks ≡ c.networks
unfolding save
networks-save os c = ground arith

-- the entry of a network after a method that stores one
module _ (os : Outcome) (c : NetworkCache) where
  entry-save :
      (networks : Dict NetworkState)
      → (save os (record c { networks = networks })).0.networks ≡ networks
  entry-save networks = networks-save os (record c { networks = networks })

  pub entry-set_network :
      (state : NetworkState) (n : Text)
      → Dict.get n (set_network os state c).0.networks ≡ (
          if str_eq state.id n
          then some (merged state (Dict.get state.id c.networks))
          else Dict.get n c.networks)
  unfolding set_network
  entry-set_network state n = rw entry-save (get-put state.id n _ c.networks)

  pub entry-set_metadata :
      (now : ℕ) (n e n' : Text) (meta : ContainerMetadata)
      → Dict.get n' (set_metadata now os n e meta c).networks ≡ (
          if str_eq n n'
          then some (record (or_placeholder n (Dict.get n c.networks)) {
            metadata_map = some (
                Dict.put e
                  (stamped now meta)
                  (or_made (or_placeholder n (Dict.get n c.networks)).metadata_map));
          })
          else Dict.get n' c.networks)
  unfolding set_metadata
  entry-set_metadata now n e n' meta = rw entry-save (get-put n n' _ c.networks)

  pub entry-set_endpoint :
      (n n' : Text) (ep : EndpointState) (net : NetworkState)
      → Dict.get n c.networks ≡ some net
      → Dict.get n' (set_endpoint os n ep c).0.networks ≡ (
          if str_eq n n'
          then some (record net { endpoints = some (Dict.put ep.id ep (or_made net.endpoints)) })
          else Dict.get n' c.networks)
  unfolding set_endpoint
  entry-set_endpoint n n' ep net h = rw (h, set_endpoint, entry-save) (get-put n n' _ c.networks)

  -- Storing a state without endpoints, as CreateNetwork does, keeps all endpoints of the cache.
  pub get_endpoint-set_network :
      (state : NetworkState) (n e : Text)
      → state.endpoints ≡ none
      → get_endpoint n e (set_network os state c).0 ≡ get_endpoint n e c
  unfolding get_endpoint Dict.get
  get_endpoint-set_network state n e h =
      ground (arith, entry-set_network state n, str_eq_iff state.id n)

  -- After SetMetadata, the entry of this network and endpoint is the given one, stamped with the
  -- current time if it had none; every other entry is as before. The network need not be there.
  pub get_metadata-set_metadata :
      (now : ℕ) (n e n' e' : Text) (meta : ContainerMetadata)
      → get_metadata n' e' (set_metadata now os n e meta c)
        ≡ (if str_eq n n' && str_eq e e' then some (stamped now meta) else get_metadata n' e' c)
  unfolding get_metadata Dict.get
  get_metadata-set_metadata now n e n' e' meta = ground (
    arith,
    entry-set_metadata now n e n' meta,
    str_eq_iff n n',
    get-put e e' (stamped now meta)
        (or_made (or_placeholder n (Dict.get n c.networks)).metadata_map),
  )

  -- SetMetadata changes no endpoint.
  pub get_endpoint-set_metadata :
      (now : ℕ) (n e n' e' : Text) (meta : ContainerMetadata)
      → get_endpoint n' e' (set_metadata now os n e meta c) ≡ get_endpoint n' e' c
  unfolding get_endpoint Dict.get
  get_endpoint-set_metadata now n e n' e' meta =
      ground (arith, entry-set_metadata now n e n' meta, str_eq_iff n n')

  endpoint-set_endpoint :
      (n n' e' : Text) (ep : EndpointState) (net : NetworkState)
      → Dict.get n c.networks ≡ some net
      → get_endpoint n' e' (set_endpoint os n ep c).0
        ≡ (if str_eq n n' && str_eq ep.id e' then some ep else get_endpoint n' e' c)
  unfolding get_endpoint Dict.get
  endpoint-set_endpoint n n' e' ep net h = ground (
    arith,
    entry-set_endpoint n n' ep net h,
    str_eq_iff n n',
    get-put ep.id e' ep (or_made net.endpoints),
  )

  set_endpoint_missing :
      (n : Text) (ep : EndpointState)
      → Dict.get n c.networks ≡ none
      → set_endpoint os n ep c ≡ (c, some (not_found n))
  unfolding set_endpoint
  set_endpoint_missing n ep h = rw (h, set_endpoint)

  set_endpoint_found :
      (n : Text) (ep : EndpointState) (net : NetworkState)
      → Dict.get n c.networks ≡ some net
      → (set_endpoint os n ep c).1 ≢ some (not_found n)
  unfolding set_endpoint
  set_endpoint_found n ep net h = rw (h, set_endpoint) λ p. ground arith

  -- SetEndpoint stores the endpoint under its own id if the cache has the network, and changes no
  -- other endpoint; it reports a missing network exactly if the cache lacks it, and then changes
  -- nothing.
  pub get_endpoint-set_endpoint :
      (n n' e' : Text) (ep : EndpointState)
      → (get_endpoint n' e' (set_endpoint os n ep c).0 ≡ (
          if Dict.has n c.networks && (str_eq n n' && str_eq ep.id e')
          then some ep
          else get_endpoint n' e' c))
        × (((set_endpoint os n ep c).1 ≡ some (not_found n)) ↔ (Dict.has n c.networks ≡ false))
  unfolding Dict.has
  get_endpoint-set_endpoint n n' e' ep = elim (Option-cases (Dict.get n c.networks)) [
    | inl e ↦ ground (arith, e, set_endpoint_missing n ep e)
    | inr (net, e) ↦
        ground (arith, e, endpoint-set_endpoint n n' e' ep net e, set_endpoint_found n ep net e)
  ]
