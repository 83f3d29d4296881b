-- ===== src/Cache/Reconcile/Orphans.antt =====
-- The loop of Reconcile (pkg/plugin/cache.go) over the endpoints of one network.
use docker_net_dhcp.Shared.{
  List, [], ◌∷◌, Bool, true, false, ◌&&◌, ◌||◌, not, none, some, if◌then◌else◌, ◌≡◌, refl, arith,
}
use docker_net_dhcp.Shared.Text.{Text, str_eq, str_eq_iff, is_empty}
use docker_net_dhcp.Shared.Dict
use docker_net_dhcp.Shared.Dict.{Dict, keys, values, member, get-put, get-del, get-keys}
use docker_net_dhcp.Cache.State.{NetworkState, or_made}
use docker_net_dhcp.Cache.Ops.{endpoint_in, metadata_in}
use docker_net_dhcp.Cache.Reconcile.{
  Inspect, active_endpoints, is_active, prune_orphan, prune_orphans, endpoint_ids, refresh,
  container_map,
}

-- an endpoint that one of Docker's containers has on the network
abbrev pub is_attached : Inspect → Text → Bool
is_attached n e = not (is_empty e) && member e (values n.containers)

is_active-active_endpoints :
    (ctrs : Dict Text) (m : Dict Bool) (e : Text)
    → is_active (active_endpoints ctrs m) e
      ≡ (is_active m e || (not (is_empty e) && member e (values ctrs)))
unfolding active_endpoints member
is_active-active_endpoints [] m e = ground arith
is_active-active_endpoints ((c, []) ∷ ctrs) m e =
    ground (arith, is_active-active_endpoints ctrs m e, str_eq_iff [] e)
is_active-active_endpoints ((c, b ∷ t) ∷ ctrs) m e = ground (
  arith,
  is_active-active_endpoints ctrs (Dict.put (b ∷ t) true m) e,
  get-put (b ∷ t) e true m,
  str_eq_iff (b ∷ t) e,
)

-- the endpoints of a network, and the metadata beside them, by the id of an endpoint
abbrev pub has_endpoint : Text → NetworkState → Bool
has_endpoint e net = elim (endpoint_in e (some net)) [ none ↦ false | some ep ↦ true ]

module _ (active : Dict Bool) where
  endpoint-prune_orphan :
      (k e : Text) (s : NetworkState × Bool)
      → endpoint_in e (some (prune_orphan active k s).0)
        ≡ (if str_eq k e && not (is_active active e) then none else endpoint_in e (some s.0))
  unfolding prune_orphan
  endpoint-prune_orphan k e (net, changed) =
      ground (arith, str_eq_iff k e, get-del k e (or_made net.endpoints))

  metadata-prune_orphan :
      (k e : Text) (s : NetworkState × Bool)
      → metadata_in e (some (prune_orphan active k s).0) ≡ (
          if str_eq k e && (has_endpoint e s.0 && not (is_active active e))
          then none
          else metadata_in e (some s.0))
  unfolding prune_orphan
  metadata-prune_orphan k e (net, changed) =
      ground (arith, str_eq_iff k e, get-del k e (or_made net.metadata_map))

  endpoint-prune_orphans :
      (ks : List Text) (e : Text) (s : NetworkState × Bool)
      → endpoint_in e (some (prune_orphans active ks s).0)
        ≡ (if member e ks && not (is_active active e) then none else endpoint_in e (some s.0))
  unfolding prune_orphans member
  endpoint-prune_orphans [] e s = refl
  endpoint-prune_orphans (k ∷ ks) e s =
      ground
        (arith, endpoint-prune_orphans ks e (prune_orphan active k s), endpoint-prune_orphan k e s)

  metadata-prune_orphans :
      (ks : List Text) (e : Text) (s : NetworkState × Bool)
      → metadata_in e (some (prune_orphans active ks s).0) ≡ (
          if member e ks && (has_endpoint e s.0 && not (is_active active e))
          then none
          else metadata_in e (some s.0))
  unfolding prune_orphans member
  metadata-prune_orphans [] e s = refl
  metadata-prune_orphans (k ∷ ks) e s = ground (
    arith,
    metadata-prune_orphans ks e (prune_orphan active k s),
    metadata-prune_orphan k e s,
    endpoint-prune_orphan k e s,
  )

  fields-prune_orphans :
      (ks : List Text) (s : NetworkState × Bool)
      → ((prune_orphans active ks s).0.id ≡ s.0.id)
        × ((prune_orphans active ks s).0.options ≡ s.0.options)
        × ((prune_orphans active ks s).0.container_map ≡ s.0.container_map)
  unfolding prune_orphans
  fields-prune_orphans [] s = (refl, refl, refl)
  fields-prune_orphans (k ∷ ks) s =
      ground (arith, fields-prune_orphans ks (prune_orphan active k s))

flag-prune_orphan :
    (active : Dict Bool) (k : Text) (net : NetworkState) (a b : Bool)
    → (prune_orphan active k (net, a)).0 ≡ (prune_orphan active k (net, b)).0
unfolding prune_orphan
flag-prune_orphan active k net a b = ground arith

-- The flag does not bear on the entry.
flag-prune_orphans :
    (active : Dict Bool) (ks : List Text) (s t : NetworkState × Bool)
    → s.0 ≡ t.0
    → (prune_orphans active ks s).0 ≡ (prune_orphans active ks t).0
unfolding prune_orphans
flag-prune_orphans active [] s t h = h
flag-prune_orphans active (k ∷ ks) (x, a) (y, b) h =
    flag-prune_orphans active ks _ _ (rw h (flag-prune_orphan active k y a b))

-- the entry with its new map of containers, before its endpoints are looked at
abbrev mapped : Inspect → NetworkState → NetworkState
mapped n net = record net { container_map = some (container_map n.containers []) }

is_active-attached :
    (n : Inspect) (e : Text) → is_active (active_endpoints n.containers []) e ≡ is_attached n e
unfolding Dict.get
is_active-attached n e = is_active-active_endpoints n.containers [] e

pub flag-refresh :
    (n : Inspect) (net : NetworkState) (a b : Bool)
    → (refresh n (net, a)).0 ≡ (refresh n (net, b)).0
unfolding refresh
flag-refresh n net a b =
    flag-prune_orphans (active_endpoints n.containers []) (endpoint_ids net.endpoints)
      (mapped n net, a) (mapped n net, b) refl

endpoint-ids :
    (e : Text) (net : NetworkState)
    → member e (endpoint_ids net.endpoints) ≡ false
    → endpoint_in e (some net) ≡ none
unfolding member
endpoint-ids e net h = ground (arith, get-keys e (or_made net.endpoints))

module _ (n : Inspect) (net : NetworkState) (changed : Bool) (e : Text) where
  -- An endpoint of the entry stays exactly if a container of Docker's has it.
  pub endpoint-refresh :
      endpoint_in e (some (refresh n (net, changed)).0)
      ≡ (if is_attached n e then endpoint_in e (some net) else none)
  unfolding refresh
  endpoint-refresh = ground (
    arith,
    endpoint-prune_orphans (active_endpoints n.containers []) (endpoint_ids net.endpoints) e
        (mapped n net, changed),
    is_active-attached n e,
    endpoint-ids e net,
  )

  -- Metadata goes only with an endpoint that goes.
  pub metadata-refresh :
      metadata_in e (some (refresh n (net, changed)).0)
      ≡ (if has_endpoint e net && not (is_attached n e) then none else metadata_in e (some net))
  unfolding refresh
  metadata-refresh = ground (
    arith,
    metadata-prune_orphans (active_endpoints n.containers []) (endpoint_ids net.endpoints) e
        (mapped n net, changed),
    is_active-attached n e,
    endpoint-ids e net,
  )
