-- ===== src/Network/Bridge.antt =====
-- CreateNetwork and DeleteNetwork of pkg/plugin/network.go: which bridges are taken.
use docker_net_dhcp.Shared.{
  List, [], ◌∷◌, true, false, not, ◌&&◌, Option, none, some, ◌≡◌, ◌≢◌, ◌⊎◌, refl, ◌∙◌, ap, inl, inr,
  arith, All, Option-cases, Bool-cases,
}
use docker_net_dhcp.Shared.Text.{Text, text, str_eq, str_eq_iff, str_eq_refl, is_empty}
use docker_net_dhcp.Shared.Dict
use docker_net_dhcp.Shared.Dict.{Dict}
use docker_net_dhcp.Shared.Result.{Result, ok, Result-cases}
use docker_net_dhcp.Driver.{DhcpNetworkOptions, is_dhcp_plugin}
use docker_net_dhcp.Cache.State.{NetworkState}
use docker_net_dhcp.Cache.Ops.{CacheError, get_endpoint, set_network, merged}
use docker_net_dhcp.Cache.Ops.Lookup.{get_endpoint-set_network, entry-set_network}
use docker_net_dhcp.Cache.Reconcile.{Inspect}
use docker_net_dhcp.Errors.{Error, wrapped, caching}
use docker_net_dhcp.Plugin.{Plugin}
use docker_net_dhcp.Network.{
  World, CreateNetworkRequest, conflicts, in_use, checked_options, create_network, bare_state,
  cache_failure,
}

-- the network is not another one of this plugin with the bridge
abbrev pub Leaves : (Dict Text → Option DhcpNetworkOptions) → (bridge id : Text) → Inspect → Type 0
Leaves decode_opts bridge id n =
    is_dhcp_plugin n.driver ≡ true
    → n.id ≢ id
    → (opts : DhcpNetworkOptions) → decode_opts n.options ≡ some opts
    → opts.bridge ≢ bridge

conflicts_free :
    (decode_opts : Dict Text → Option DhcpNetworkOptions) (bridge id : Text) (nets : List Inspect)
    → conflicts decode_opts bridge id nets ≡ false
    → All (Leaves decode_opts bridge id) nets
unfolding conflicts
conflicts_free decode_opts bridge id [] h = tt
conflicts_free decode_opts bridge id (n ∷ ns) h =
    (first, conflicts_free decode_opts bridge id ns rest)
  where
    first : Leaves decode_opts bridge id n
    first d other opts decoded same =
        ground
          (arith, h, d, decoded, str_eq_iff opts.bridge bridge, str_eq_iff n.id id, other, same)

    rest : conflicts decode_opts bridge id ns ≡ false
    rest = elim (Option-cases (decode_opts n.options)) [
      | inl e ↦ ground (arith, h, e)
      | inr (opts, e) ↦ ground (arith, h, e)
    ]

module _ (w : World) (r : CreateNetworkRequest) where
  -- what CreateNetwork has found out when it stores the network
  abbrev pub IsAllowed : DhcpNetworkOptions → Type 0
  IsAllowed opts =
      (w.decode_opts r.generic ≡ some opts)
      × (opts.bridge ≢ [])
      × (w.link_by_name opts.bridge ≡ ok (text "bridge"))
      × ((opts.ignore_conflicts ≡ true)
          ⊎ ((nets : List Inspect)
              → w.network_list ≡ some nets
              → All (Leaves w.decode_opts opts.bridge r.network_id) nets))

  not_in_use :
      (opts : DhcpNetworkOptions)
      → in_use w r opts ≡ false
      → (nets : List Inspect) → w.network_list ≡ some nets
      → All (Leaves w.decode_opts opts.bridge r.network_id) nets
  unfolding in_use
  not_in_use opts h nets listed =
      conflicts_free w.decode_opts opts.bridge r.network_id nets (rw (listed, in_use) at h)

  is_empty_ne : (s : Text) → is_empty s ≡ false → s ≢ []
  is_empty_ne [] h p = absurd cc
  is_empty_ne (b ∷ s) h p = absurd cc

  checked_options-IsAllowed :
      (opts : DhcpNetworkOptions) → checked_options w r ≡ ok opts → IsAllowed opts
  unfolding checked_options
  checked_options-IsAllowed opts h = elim (Option-cases (w.decode_opts r.generic)) [
    | inl e ↦ absurd (cc (rw (e, checked_options) at h))
    | inr (o, e) ↦ elim (Bool-cases (is_empty o.bridge)) [
      | inl b ↦ absurd (cc (rw (e, checked_options, b) at h))
      | inr b ↦ elim (Result-cases (w.link_by_name o.bridge)) [
        | inl (x, l) ↦ absurd (cc (rw (e, checked_options, b, l) at h))
        | inr (kind, l) ↦ elim (Bool-cases (str_eq kind (text "bridge"))) [
          | inr k ↦ absurd (cc (rw (e, checked_options, b, l, k) at h))
          | inl k ↦ elim (Bool-cases (not o.ignore_conflicts && in_use w r o)) [
            | inl u ↦ absurd (cc (rw (e, checked_options, b, l, k, u) at h))
            | inr u ↦
                let same : o ≡ opts = ok_inj o opts (rw (e, checked_options, b, l, k, u) at h) in
                let allowed : IsAllowed o = (
                  e,
                  is_empty_ne o.bridge b,
                  l ∙ ap ok ((str_eq_iff kind (text "bridge")).0 k),
                  elim (Bool-cases o.ignore_conflicts) [
                    | inl i ↦ inl i
                    | inr i ↦ inr (not_in_use o (rw i at u))
                  ],
                ) in
                rw same at allowed
          ]
        ]
      ]
    ]
  ]
    where
      ok_inj :
          (a b : DhcpNetworkOptions) → Path (Result Error DhcpNetworkOptions) (ok a) (ok b) → a ≡ b
      ok_inj a b p = cc

  -- CreateNetwork reports success only for options that decode and name a link of type bridge which,
  -- unless the options ignore conflicts, no other network of this plugin that Docker lists has;
  -- the cache then has the network with these options.
  pub create_network_exclusive :
      (p : Plugin)
      → (create_network w r p).1 ≡ none
      → (opts : DhcpNetworkOptions) × IsAllowed opts
        × (state : NetworkState) × (Dict.get r.network_id (create_network w r p).0.cache.networks
            ≡ some state)
        × (state.options ≡ opts)
  unfolding create_network
  create_network_exclusive p h = elim (Result-cases (checked_options w r)) [
    | inl (e, c) ↦ absurd (cc (rw (c, create_network) at h))
    | inr (opts, c) ↦ (
      opts,
      checked_options-IsAllowed opts c,
      merged (bare_state r.network_id opts) (Dict.get r.network_id p.cache.networks),
      rw (c, create_network)
          (entry-set_network w.outcome p.cache (bare_state r.network_id opts) r.network_id
            ∙ rw (str_eq_refl r.network_id) refl),
      refl,
    )
  ]

  -- CreateNetwork, whatever it reports, changes no endpoint of the cache; an error other than one of
  -- the cache itself leaves the whole plugin as it was.
  pub create_network_keeps :
      (p : Plugin) (n e : Text)
      → (get_endpoint n e (create_network w r p).0.cache ≡ get_endpoint n e p.cache)
        × ((x : Error)
            → (create_network w r p).1 ≡ some x
            → ((create_network w r p).0 ≡ p)
              ⊎ ((why : CacheError) × (x
                    ≡ wrapped (text "failed to save network state to cache") (caching why))))
  unfolding create_network
  create_network_keeps p n e = elim (Result-cases (checked_options w r)) [
    | inl (x, c) ↦ rw (c, create_network) (refl, λ y h. inl refl)
    | inr (opts, c) ↦
        rw (c, create_network)
          (
            get_endpoint-set_network w.outcome p.cache (bare_state r.network_id opts) n e refl,
            λ y h.
                inr (failure (set_network w.outcome (bare_state r.network_id opts) p.cache).1 y h),
          )
  ]
    where
      failure :
          (o : Option CacheError) (y : Error)
          → cache_failure o ≡ some y
          → (why : CacheError) × (y
              ≡ wrapped (text "failed to save network state to cache") (caching why))
      failure none y q = absurd cc
      failure (some why) y q = (why, cc)
