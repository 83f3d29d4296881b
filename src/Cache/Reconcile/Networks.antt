-- ===== src/Cache/Reconcile/Networks.antt =====
-- The two outer loops of Reconcile (pkg/plugin/cache.go): the entry that each network has in the end.
use docker_net_dhcp.Shared.{
  List, [], ◌∷◌, Bool, false, ◌||◌, Option, none, some, if◌then◌else◌, ◌≡◌, refl, arith,
  Option-cases, Bool-cases, inl, inr, ap, ◌∙◌,
}
use docker_net_dhcp.Shared.Text.{Text, str_eq, str_eq_iff}
use docker_net_dhcp.Shared.Dict
use docker_net_dhcp.Shared.Dict.{Dict, keys, values, member, get-put, get-del, get-keys}
use docker_net_dhcp.Shared.Dict.Range.{sweep, spare, get-sweep}
use docker_net_dhcp.Shared.Dict.Distinct.{IsDistinct, put-IsDistinct}
use docker_net_dhcp.Driver.{DhcpNetworkOptions, is_dhcp_plugin}
use docker_net_dhcp.Cache.State.{NetworkState}
use docker_net_dhcp.Cache.Disk.{NetworkCache, Outcome}
use docker_net_dhcp.Cache.Ops.Lookup.{networks-save}
use docker_net_dhcp.Cache.Reconcile.Orphans.{flag-refresh}
use docker_net_dhcp.Cache.Reconcile.{
  Inspect, listed, global, plugin_networks, adopt, refresh, reconcile_network, reconcile_networks,
  is_ghost, reconciled, reconcile,
}

plugin_networks-IsDistinct :
    (ns : List Inspect) (nets : Dict Inspect)
    → IsDistinct nets
    → IsDistinct (plugin_networks ns nets)
unfolding plugin_networks
plugin_networks-IsDistinct [] nets d = d
plugin_networks-IsDistinct (n ∷ ns) nets d = elim (Bool-cases (is_dhcp_plugin n.driver)) [
  | inl h ↦ rw h (plugin_networks-IsDistinct ns _ (put-IsDistinct n.id n nets d))
  | inr h ↦ rw h (plugin_networks-IsDistinct ns nets d)
]

module _ (decode_opts : Dict Text → Option DhcpNetworkOptions) where
  -- what becomes of the entry of a network that Docker has: it is taken over, or made of Docker's
  -- options if these decode, and refreshed
  abbrev pub renewed : Text → Inspect → Option NetworkState → Option NetworkState
  renewed id n entry = elim (adopt decode_opts id n entry) [
    | none ↦ none
    | some (existing, added) ↦ some (refresh n (existing, false)).0
  ]

  entry-reconcile_network :
      (id j : Text) (n : Inspect) (s : Dict NetworkState × Bool)
      → Dict.get j (reconcile_network decode_opts id n s).0
        ≡ (if str_eq id j then renewed id n (Dict.get j s.0) else Dict.get j s.0)
  unfolding reconcile_network adopt
  entry-reconcile_network id j n (networks, changed) =
      elim (Option-cases (adopt decode_opts id n (Dict.get id networks))) [
        | inl h ↦ ground (arith, h, str_eq_iff id j)
        | inr ((existing, added), h) ↦ ground (
          arith,
          h,
          str_eq_iff id j,
          get-put id j (refresh n (existing, changed || added)).0 networks,
          flag-refresh n existing (changed || added) false,
        )
      ]

  abbrev pub settled : Text → Dict Inspect → Option NetworkState → Option NetworkState
  settled id nets entry = elim (Dict.get id nets) [ none ↦ entry | some n ↦ renewed id n entry ]

  entry-reconcile_networks :
      (nets : Dict Inspect) (j : Text) (s : Dict NetworkState × Bool)
      → IsDistinct nets
      → Dict.get j (reconcile_networks decode_opts nets s).0 ≡ settled j nets (Dict.get j s.0)
  unfolding reconcile_networks Dict.get
  entry-reconcile_networks [] j s d = refl
  entry-reconcile_networks ((id, n) ∷ nets) j s d = ground (
    arith,
    entry-reconcile_networks nets j (reconcile_network decode_opts id n s) d.1,
    entry-reconcile_network id j n s,
    str_eq_iff id j,
    get-keys id nets,
  )

  entry-reconciled :
      (nets : Dict Inspect) (networks : Dict NetworkState) (j : Text)
      → IsDistinct nets
      → Dict.get j (reconciled decode_opts nets networks).0
        ≡ settled j nets (spare (is_ghost nets) j (Dict.get j networks))
  unfolding reconciled
  entry-reconciled nets networks j d =
      entry-reconcile_networks nets j (sweep (is_ghost nets) (keys networks) (networks, false)) d
      ∙ ap (settled j nets) (get-sweep (is_ghost nets) j networks false)

  networks-reconcile :
      (os : Outcome) (ns : List Inspect) (c : NetworkCache)
      → (reconcile decode_opts os (listed ns) c).networks
        ≡ (reconciled decode_opts (plugin_networks ns []) c.networks).0
  unfolding reconcile
  networks-reconcile os ns c = ground (
    arith,
    networks-save os
        (record c { networks = (reconciled decode_opts (plugin_networks ns []) c.networks).0 }),
  )

  -- After Reconcile on a list of Docker's networks, the cache has for each id: the renewed entry if
  -- Docker has a network of this plugin with the id (for the last one of the list, should two share
  -- it); the old entry, if the id is "global" and Docker has none; and nothing otherwise. The order
  -- in which Go meets the networks does not matter.
  pub entry-reconcile :
      (os : Outcome) (ns : List Inspect) (c : NetworkCache) (id : Text)
      → Dict.get id (reconcile decode_opts os (listed ns) c).networks
        ≡ elim (Dict.get id (plugin_networks ns [])) [
          | none ↦ if str_eq id global then Dict.get id c.networks else none
          | some n ↦ renewed id n (Dict.get id c.networks)
        ]
  unfolding Dict.has
  entry-reconcile os ns c id = ground (
    arith,
    ap (λ m. Dict.get id m) (networks-reconcile os ns c),
    entry-reconciled (plugin_networks ns []) c.networks id (plugin_networks-IsDistinct ns [] tt),
  )
