-- ===== src/Cache/Ops/Prune.antt =====
-- PruneMetadata of pkg/plugin/cache.go drops exactly the metadata that is too old.
use docker_net_dhcp.Shared.{
  ℕ, ◌+◌, leb, List, [], ◌∷◌, Bool, false, Option, none, some, if◌then◌else◌, ◌≡◌, refl, arith,
  Option-cases, Bool-cases, inl, inr, ◌∙◌,
}
use docker_net_dhcp.Shared.Text.{Text, str_eq, str_eq_iff}
use docker_net_dhcp.Shared.Dict
use docker_net_dhcp.Shared.Dict.{Dict, keys, member, get-put, get-keys}
use docker_net_dhcp.Shared.Dict.Range.{sweep, get-sweep, sweep_unchanged}
use docker_net_dhcp.Cache.State.{ContainerMetadata, NetworkState}
use docker_net_dhcp.Cache.Disk.{NetworkCache, Outcome}
use docker_net_dhcp.Cache.Ops.Lookup.{networks-save}
use docker_net_dhcp.Cache.Ops.{
  get_metadata, get_endpoint, endpoint_in, metadata_in, is_expired, prune_network, prune_networks,
  prune_metadata,
}

-- metadata that is at most `max_age` old
abbrev pub fresh : ℕ → ℕ → Option ContainerMetadata → Option ContainerMetadata
fresh now max_age none = none
fresh now max_age (some meta) = if leb now (meta.created_at + max_age) then some meta else none

module _ (now max_age : ℕ) where
  abbrev old : Text → ContainerMetadata → Bool
  old ep meta = is_expired now max_age meta

  fresh_idem :
      (o : Option ContainerMetadata) → fresh now max_age (fresh now max_age o) ≡ fresh now max_age o
  fresh_idem o = ground arith

  get-sweep-fresh :
      (e : Text) (m : Dict ContainerMetadata) (changed : Bool)
      → Dict.get e (sweep old (keys m) (m, changed)).0 ≡ fresh now max_age (Dict.get e m)
  get-sweep-fresh e m changed = get-sweep old e m changed ∙ ground arith

  metadata-prune_network :
      (k n e : Text) (s : Dict NetworkState × Bool)
      → metadata_in e (Dict.get n (prune_network now max_age k s).0) ≡ (
          if str_eq k n
          then fresh now max_age (metadata_in e (Dict.get n s.0))
          else metadata_in e (Dict.get n s.0))
  unfolding prune_network
  metadata-prune_network k n e (networks, changed) = elim (Option-cases (Dict.get k networks)) [
    | inl h ↦ ground (arith, h, str_eq_iff k n)
    | inr (net, h) ↦ elim (Option-cases net.metadata_map) [
      | inl hm ↦ ground (arith, h, hm, str_eq_iff k n)
      | inr (m, hm) ↦ ground (
        arith,
        h,
        hm,
        str_eq_iff k n,
        get-sweep-fresh e m changed,
        sweep_unchanged old (keys m) m changed,
        get-put k n (record net { metadata_map = some (sweep old (keys m) (m, changed)).0 })
            networks,
      )
    ]
  ]

  endpoint-prune_network :
      (k n e : Text) (s : Dict NetworkState × Bool)
      → endpoint_in e (Dict.get n (prune_network now max_age k s).0)
        ≡ endpoint_in e (Dict.get n s.0)
  unfolding prune_network
  endpoint-prune_network k n e (networks, changed) = elim (Option-cases (Dict.get k networks)) [
    | inl h ↦ ground (arith, h)
    | inr (net, h) ↦ elim (Option-cases net.metadata_map) [
      | inl hm ↦ ground (arith, h, hm)
      | inr (m, hm) ↦ ground (
        arith,
        h,
        hm,
        str_eq_iff k n,
        get-put k n (record net { metadata_map = some (sweep old (keys m) (m, changed)).0 })
            networks,
      )
    ]
  ]

  metadata-prune_networks :
      (ks : List Text) (n e : Text) (s : Dict NetworkState × Bool)
      → metadata_in e (Dict.get n (prune_networks now max_age ks s).0) ≡ (
          if member n ks
          then fresh now max_age (metadata_in e (Dict.get n s.0))
          else metadata_in e (Dict.get n s.0))
  unfolding prune_networks member
  metadata-prune_networks [] n e s = refl
  metadata-prune_networks (k ∷ ks) n e s =
      let s' = prune_network now max_age k s in
      ground (
        arith,
        metadata-prune_networks ks n e s',
        metadata-prune_network k n e s,
        fresh_idem (metadata_in e (Dict.get n s.0)),
      )

  endpoint-prune_networks :
      (ks : List Text) (n e : Text) (s : Dict NetworkState × Bool)
      → endpoint_in e (Dict.get n (prune_networks now max_age ks s).0)
        ≡ endpoint_in e (Dict.get n s.0)
  unfolding prune_networks
  endpoint-prune_networks [] n e s = refl
  endpoint-prune_networks (k ∷ ks) n e s =
      endpoint-prune_networks ks n e (prune_network now max_age k s)
      ∙ endpoint-prune_network k n e s

  networks-prune_metadata :
      (os : Outcome) (c : NetworkCache)
      → (prune_metadata now os max_age c).networks
        ≡ (prune_networks now max_age (keys c.networks) (c.networks, false)).0
  unfolding prune_metadata
  networks-prune_metadata os c = ground (
    arith,
    networks-save os (record c {
      networks = (prune_networks now max_age (keys c.networks) (c.networks, false)).0;
    }),
  )

  metadata-prune_all :
      (n e : Text) (networks : Dict NetworkState)
      → metadata_in e (Dict.get n (prune_networks now max_age (keys networks) (networks, false)).0)
        ≡ fresh now max_age (metadata_in e (Dict.get n networks))
  metadata-prune_all n e networks = elim (Bool-cases (member n (keys networks))) [
    | inl h ↦ ground (arith, h, metadata-prune_networks (keys networks) n e (networks, false))
    | inr h ↦ ground (
      arith,
      h,
      metadata-prune_networks (keys networks) n e (networks, false),
      get-keys n networks,
    )
  ]

  -- After PruneMetadata, the metadata of every endpoint of every network is there exactly if it was
  -- there before and is at most `max_age` old; no endpoint changes. It holds whatever the order in
  -- which Go meets the networks and the entries, and whatever becomes of the save.
  pub get-prune_metadata :
      (os : Outcome) (c : NetworkCache) (n e : Text)
      → (get_metadata n e (prune_metadata now os max_age c)
          ≡ fresh now max_age (get_metadata n e c))
        × (get_endpoint n e (prune_metadata now os max_age c) ≡ get_endpoint n e c)
  unfolding get_metadata get_endpoint
  get-prune_metadata os c n e = (
    rw networks-prune_metadata (metadata-prune_all n e c.networks),
    rw networks-prune_metadata (endpoint-prune_networks (keys c.networks) n e (c.networks, false)),
  )
