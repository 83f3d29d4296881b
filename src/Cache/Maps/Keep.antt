-- ===== src/Cache/Maps/Keep.antt =====
-- Each method of pkg/plugin/cache.go keeps the cache's maps maps.
use docker_net_dhcp.Shared.{
  ℕ, List, [], ◌∷◌, Bool, false, ◌||◌, Option, none, some, ◌≡◌, refl, inl, inr, Bool-cases,
  Option-cases, if-both,
}
use mathlib.Core.Path.{subst}
use docker_net_dhcp.Shared.Text.{Text}
use docker_net_dhcp.Shared.Dict
use docker_net_dhcp.Shared.Dict.{Dict, keys}
use docker_net_dhcp.Shared.Dict.Distinct.{IsDistinct, put-IsDistinct, del-IsDistinct}
use docker_net_dhcp.Shared.Dict.Each.{put-Each, del-Each, get-Each, sweep-keeps}
use docker_net_dhcp.Shared.Dict.Range.{sweep}
use docker_net_dhcp.Driver.{DhcpNetworkOptions}
use docker_net_dhcp.Cache.State.{EndpointState, ContainerMetadata, NetworkState, or_made}
use docker_net_dhcp.Cache.Ops.{
  is_expired, prune_network, prune_networks, drop_key, or_placeholder, placeholder,
}
use docker_net_dhcp.Cache.Reconcile.{
  Inspect, container_map, active_endpoints, is_active, prune_orphan, prune_orphans, endpoint_ids,
  refresh, adopt, reconcile_network, reconcile_networks, reconciled, is_ghost,
}
use docker_net_dhcp.Cache.Maps.{IsMap, IsStored, IsCache}

pub put-IsCache :
    (id : Text) (net : NetworkState) (networks : Dict NetworkState)
    → IsStored net
    → IsCache networks
    → IsCache (Dict.put id net networks)
put-IsCache id net networks st c = record {
  networks_distinct = put-IsDistinct id net networks c.networks_distinct;
  each_stored = put-Each IsStored id net networks st c.each_stored;
}

pub del-IsCache :
    (id : Text) (networks : Dict NetworkState) → IsCache networks → IsCache (Dict.del id networks)
del-IsCache id networks c = record {
  networks_distinct = del-IsDistinct id networks c.networks_distinct;
  each_stored = del-Each IsStored id networks c.each_stored;
}

pub get-IsStored :
    (id : Text) (networks : Dict NetworkState) (net : NetworkState)
    → IsCache networks
    → Dict.get id networks ≡ some net
    → IsStored net
get-IsStored id networks net c g = get-Each IsStored id networks net g c.each_stored

pub or_made-IsDistinct {ℓ} : {V : Type ℓ} (m : Option (Dict V)) → IsMap m → IsDistinct (or_made m)
or_made-IsDistinct none h = tt
or_made-IsDistinct (some m) h = h

pub drop_key-IsMap {ℓ} :
    {V : Type ℓ} (k : Text) (m : Option (Dict V)) → IsMap m → IsMap (drop_key k m)
drop_key-IsMap k none h = tt
drop_key-IsMap k (some m) h = del-IsDistinct k m h

placeholder-IsStored : (id : Text) → IsStored (placeholder id)
placeholder-IsStored id = record {
  endpoints_distinct = tt;
  containers_distinct = tt;
  metadata_distinct = tt;
}

pub or_placeholder-IsStored :
    (id k : Text) (networks : Dict NetworkState)
    → IsCache networks
    → IsStored (or_placeholder id (Dict.get k networks))
or_placeholder-IsStored id k networks c = elim (Option-cases (Dict.get k networks)) [
  | inl g ↦ rw g (placeholder-IsStored id)
  | inr (net, g) ↦ rw g (get-IsStored k networks net c g)
]

-- a network whose metadata has changed
pub with_metadata :
    (net : NetworkState) (m : Dict ContainerMetadata)
    → IsStored net
    → IsDistinct m
    → IsStored (record net { metadata_map = some m })
with_metadata net m st d = record {
  endpoints_distinct = st.endpoints_distinct;
  containers_distinct = st.containers_distinct;
  metadata_distinct = d;
}

prune_network-IsCache :
    (now max_age : ℕ) (id : Text) (networks : Dict NetworkState) (changed : Bool)
    → IsCache networks
    → IsCache (prune_network now max_age id (networks, changed)).0
unfolding prune_network
prune_network-IsCache now max_age id networks changed c =
    elim (Option-cases (Dict.get id networks)) [
      | inl g ↦ rw (prune_network, g) c
      | inr (net, g) ↦ elim (Option-cases net.metadata_map) [
        | inl n ↦ rw (prune_network, g, n) c
        | inr (m, n) ↦
            let st = get-IsStored id networks net c g in
            let kept =
              sweep-keeps IsDistinct (λ k t d. del-IsDistinct k t d)
                (λ ep meta. is_expired now max_age meta) (keys m) m changed
                (rw n at st.metadata_distinct) in
            rw (prune_network, g, n)
              (if-both IsCache _ _ _ (put-IsCache id _ networks (with_metadata net _ st kept) c) c)
      ]
    ]

pub prune_networks-IsCache :
    (now max_age : ℕ) (ids : List Text) (networks : Dict NetworkState) (changed : Bool)
    → IsCache networks
    → IsCache (prune_networks now max_age ids (networks, changed)).0
unfolding prune_networks
prune_networks-IsCache now max_age [] networks changed c = c
prune_networks-IsCache now max_age (id ∷ ids) networks changed c =
    let (networks', changed') = prune_network now max_age id (networks, changed) in
    prune_networks-IsCache now max_age ids networks' changed'
      (prune_network-IsCache now max_age id networks changed c)

container_map-IsDistinct : (ctrs m : Dict Text) → IsDistinct m → IsDistinct (container_map ctrs m)
unfolding container_map
container_map-IsDistinct [] m d = d
container_map-IsDistinct ((ctr, ep) ∷ ctrs) m d =
    container_map-IsDistinct ctrs (Dict.put ep ctr m) (put-IsDistinct ep ctr m d)

-- a network without an endpoint and its metadata
without_endpoint :
    (ep : Text) (net : NetworkState) (endpoints : Dict EndpointState)
    → IsStored net
    → IsDistinct endpoints
    → IsStored (record net {
      endpoints = some (Dict.del ep endpoints);
      metadata_map = drop_key ep net.metadata_map;
    })
without_endpoint ep net endpoints st d = record {
  endpoints_distinct = del-IsDistinct ep endpoints d;
  containers_distinct = st.containers_distinct;
  metadata_distinct = drop_key-IsMap ep net.metadata_map st.metadata_distinct;
}

prune_orphan-IsStored :
    (active : Dict Bool) (ep : Text) (net : NetworkState) (changed : Bool)
    → IsStored net
    → IsStored (prune_orphan active ep (net, changed)).0
unfolding prune_orphan
prune_orphan-IsStored active ep net changed st = elim (Option-cases net.endpoints) [
  | inl n ↦ rw (prune_orphan, n) st
  | inr (endpoints, n) ↦ elim (Option-cases (Dict.get ep endpoints)) [
    | inl g ↦ rw (prune_orphan, n, g) st
    | inr (e, g) ↦ elim (Bool-cases (is_active active ep)) [
      | inl y ↦ rw (prune_orphan, n, g, y) st
      | inr f ↦
          rw (prune_orphan, n, g, f)
            (without_endpoint ep net endpoints st (rw n at st.endpoints_distinct))
    ]
  ]
]

prune_orphans-IsStored :
    (active : Dict Bool) (ids : List Text) (net : NetworkState) (changed : Bool)
    → IsStored net
    → IsStored (prune_orphans active ids (net, changed)).0
unfolding prune_orphans
prune_orphans-IsStored active [] net changed st = st
prune_orphans-IsStored active (id ∷ ids) net changed st =
    let (net', changed') = prune_orphan active id (net, changed) in
    prune_orphans-IsStored active ids net' changed' (prune_orphan-IsStored active id net changed st)

refresh-IsStored :
    (n : Inspect) (net : NetworkState) (changed : Bool)
    → IsStored net
    → IsStored (refresh n (net, changed)).0
unfolding refresh
refresh-IsStored n net changed st =
    prune_orphans-IsStored (active_endpoints n.containers []) (endpoint_ids net.endpoints)
      (record net { container_map = some (container_map n.containers []) }) changed
      (record {
        endpoints_distinct = st.endpoints_distinct;
        containers_distinct = container_map-IsDistinct n.containers [] tt;
        metadata_distinct = st.metadata_distinct;
      })

module _ (decode_opts : Dict Text → Option DhcpNetworkOptions) where
  adopt-IsStored :
      (id : Text) (n : Inspect) (existing : Option NetworkState) (net : NetworkState) (added : Bool)
      → ((old : NetworkState) → existing ≡ some old → IsStored old)
      → adopt decode_opts id n existing ≡ some (net, added)
      → IsStored net
  unfolding adopt
  adopt-IsStored id n (some old) net added h a =
      let same : old ≡ net = cc in subst IsStored same (h old refl)
  adopt-IsStored id n none net added h a = elim (Option-cases (decode_opts n.options)) [
    | inl d ↦ absurd (cc (rw (adopt, d) at a))
    | inr (opts, d) ↦
        let fresh : NetworkState = record (placeholder id) { options = opts } in
        let made = rw (adopt, d) at a in
        let same : fresh ≡ net = cc in
        subst IsStored same
          (record { endpoints_distinct = tt; containers_distinct = tt; metadata_distinct = tt })
  ]

  reconcile_network-IsCache :
      (id : Text) (n : Inspect) (networks : Dict NetworkState) (changed : Bool)
      → IsCache networks
      → IsCache (reconcile_network decode_opts id n (networks, changed)).0
  unfolding reconcile_network
  reconcile_network-IsCache id n networks changed c =
      elim (Option-cases (adopt decode_opts id n (Dict.get id networks))) [
        | inl a ↦ rw (reconcile_network, a) c
        | inr ((net, added), a) ↦
            let st =
              adopt-IsStored id n (Dict.get id networks) net added
                (λ old g. get-IsStored id networks old c g) a in
            rw (reconcile_network, a)
              (put-IsCache id (refresh n (net, changed || added)).0 networks
                (refresh-IsStored n net (changed || added) st) c)
      ]

  reconcile_networks-IsCache :
      (nets : Dict Inspect) (networks : Dict NetworkState) (changed : Bool)
      → IsCache networks
      → IsCache (reconcile_networks decode_opts nets (networks, changed)).0
  unfolding reconcile_networks
  reconcile_networks-IsCache [] networks changed c = c
  reconcile_networks-IsCache ((id, n) ∷ nets) networks changed c =
      let (networks', changed') = reconcile_network decode_opts id n (networks, changed) in
      reconcile_networks-IsCache nets networks' changed'
        (reconcile_network-IsCache id n networks changed c)

  pub reconciled-IsCache :
      (nets : Dict Inspect) (networks : Dict NetworkState)
      → IsCache networks
      → IsCache (reconciled decode_opts nets networks).0
  unfolding reconciled
  reconciled-IsCache nets networks c =
      let (swept, changed) = sweep (is_ghost nets) (keys networks) (networks, false) in
      reconcile_networks-IsCache nets swept changed
        (sweep-keeps IsCache del-IsCache (is_ghost nets) (keys networks) networks false c)
