-- ===== src/Cache/Reconcile/Effect.antt =====
-- What Reconcile (pkg/plugin/cache.go) does to the networks and endpoints, as the lookups see it.
use docker_net_dhcp.Shared.{
  List, [], ◌∷◌, Bool, true, false, ◌&&◌, ◌||◌, not, Option, none, some, if◌then◌else◌, ◌≡◌, arith,
  Option-cases, Bool-cases, inl, inr, ap, ◌∙◌,
}
use docker_net_dhcp.Shared.Text.{Text, str_eq}
use docker_net_dhcp.Shared.Dict
use docker_net_dhcp.Shared.Dict.{Dict, get-put}
use docker_net_dhcp.Driver.{DhcpNetworkOptions, is_dhcp_plugin}
use docker_net_dhcp.Cache.State.{NetworkState}
use docker_net_dhcp.Cache.Disk.{NetworkCache, Outcome}
use docker_net_dhcp.Cache.Ops.{endpoint_in, metadata_in, get_endpoint, get_metadata}
use docker_net_dhcp.Cache.Reconcile.Orphans.{is_attached, endpoint-refresh, metadata-refresh}
use docker_net_dhcp.Cache.Reconcile.Networks.{renewed, entry-reconcile}
use docker_net_dhcp.Cache.Reconcile.{Inspect, listed, global, plugin_networks, adopt, reconcile}

-- Docker lists a network of this plugin with this id
unfoldable pub lists : Text → List Inspect → Bool
lists id [] = false
lists id (n ∷ ns) = (is_dhcp_plugin n.driver && str_eq n.id id) || lists id ns

has-plugin_networks :
    (id : Text) (ns : List Inspect) (nets : Dict Inspect)
    → Dict.has id (plugin_networks ns nets) ≡ (Dict.has id nets || lists id ns)
unfolding plugin_networks lists Dict.has
has-plugin_networks id [] nets = ground arith
has-plugin_networks id (n ∷ ns) nets = elim (Bool-cases (is_dhcp_plugin n.driver)) [
  | inl h ↦
      ground (arith, h, has-plugin_networks id ns (Dict.put n.id n nets), get-put n.id id n nets)
  | inr h ↦ ground (arith, h, has-plugin_networks id ns nets)
]

abbrev pub is_some {ℓ} : {A : Type ℓ} → Option A → Bool
is_some none = false
is_some (some a) = true

module _ (decode_opts : Dict Text → Option DhcpNetworkOptions) where
  -- After Reconcile on Docker's list, the cache has no network but "global" that is not in the list
  -- as one of this plugin; and it still has each network that it had and that is in the list.
  pub has-reconcile :
      (os : Outcome) (ns : List Inspect) (c : NetworkCache) (id : Text)
      → ((Dict.has id (reconcile decode_opts os (listed ns) c).networks
            && not (str_eq id global || lists id ns))
          ≡ false)
        × ((Dict.has id c.networks
              && (lists id ns
                  && not (Dict.has id (reconcile decode_opts os (listed ns) c).networks)))
            ≡ false)
  unfolding Dict.has Dict.get adopt
  has-reconcile os ns c id =
      ground (arith, entry-reconcile decode_opts os ns c id, has-plugin_networks id ns [])

  abbrev adopted : Text → DhcpNetworkOptions → NetworkState
  adopted id opts = record {
    id = id;
    options = opts;
    endpoints = some [];
    container_map = none;
    metadata_map = none;
  }

  module _ (id e : Text) (n : Inspect) where
    endpoint-renewed :
        (entry : Option NetworkState)
        → endpoint_in e (renewed decode_opts id n entry)
          ≡ (if is_attached n e then endpoint_in e entry else none)
    unfolding adopt Dict.get
    endpoint-renewed (some net) = endpoint-refresh n net false e
    endpoint-renewed none = elim (Option-cases (decode_opts n.options)) [
      | inl h ↦ ground (arith, h)
      | inr (opts, h) ↦ ground (arith, h, endpoint-refresh n (adopted id opts) false e)
    ]

    metadata-renewed :
        (entry : Option NetworkState)
        → metadata_in e (renewed decode_opts id n entry) ≡ (
            if is_some (endpoint_in e entry) && not (is_attached n e)
            then none
            else metadata_in e entry)
    unfolding adopt Dict.get
    metadata-renewed (some net) = ground (arith, metadata-refresh n net false e)
    metadata-renewed none = elim (Option-cases (decode_opts n.options)) [
      | inl h ↦ ground (arith, h)
      | inr (opts, h) ↦ ground (arith, h, metadata-refresh n (adopted id opts) false e)
    ]

  -- On a network that Docker lists for this plugin, Reconcile keeps an endpoint exactly if one of
  -- Docker's containers has it, and takes out metadata exactly if it takes out the endpoint.
  pub endpoint-reconcile :
      (os : Outcome) (ns : List Inspect) (c : NetworkCache) (id e : Text) (n : Inspect)
      → Dict.get id (plugin_networks ns []) ≡ some n
      → (get_endpoint id e (reconcile decode_opts os (listed ns) c)
          ≡ (if is_attached n e then get_endpoint id e c else none))
        × (get_metadata id e (reconcile decode_opts os (listed ns) c) ≡ (
            if is_some (get_endpoint id e c) && not (is_attached n e)
            then none
            else get_metadata id e c))
  unfolding get_endpoint get_metadata
  endpoint-reconcile os ns c id e n h = (
    ap (endpoint_in e) entry ∙ endpoint-renewed id e n (Dict.get id c.networks),
    ap (metadata_in e) entry ∙ metadata-renewed id e n (Dict.get id c.networks),
  )
    where
      entry :
          Dict.get id (reconcile decode_opts os (listed ns) c).networks
          ≡ renewed decode_opts id n (Dict.get id c.networks)
      entry = ground (arith, h, entry-reconcile decode_opts os ns c id)
