-- ===== src/Boot/Resume.antt =====
-- What a restart of the plugin keeps: the cache that an earlier process saved, read by NewPlugin of
-- pkg/plugin/plugin.go and reconciled with Docker, and the DHCP managers that Recover of
-- pkg/plugin/network.go starts for it.
use docker_net_dhcp.Shared.{
  List, [], ◌∷◌, Bool, true, false, ◌&&◌, ◌||◌, not, none, some, if◌then◌else◌, ◌≡◌, refl, ◌∙◌, ap,
  inl, inr, arith, Option-cases, Bool-cases, sym,
}
use docker_net_dhcp.Shared.Text.{Text, str_eq, str_eq_refl}
use docker_net_dhcp.Shared.Dict
use docker_net_dhcp.Shared.Dict.{Dict}
use docker_net_dhcp.Shared.Result.{ok}
use docker_net_dhcp.Cache.State.{EndpointState, NetworkState, or_made}
use docker_net_dhcp.Cache.Json.{encode_networks}
use docker_net_dhcp.Cache.Disk.{Disk, NetworkCache, document}
use docker_net_dhcp.Cache.Ops.{endpoint_in, get_endpoint, get_all}
use docker_net_dhcp.Cache.Maps.{IsCache}
use docker_net_dhcp.Cache.Load.{new_network_cache}
use docker_net_dhcp.Cache.Load.Back.{answers-load}
use docker_net_dhcp.Cache.Reconcile.{Inspect, listed, plugin_networks, reconcile}
use docker_net_dhcp.Cache.Reconcile.Orphans.{is_attached}
use docker_net_dhcp.Cache.Reconcile.Effect.{endpoint-reconcile}
use docker_net_dhcp.Network.Recover.{
  Host, resumable, recover, any_resumes, any_network, has-recover,
}
use docker_net_dhcp.Plugin.{Plugin}
use docker_net_dhcp.Boot.{Setting, booted, new_plugin}

or_right : (a b : Bool) → b ≡ true → (a || b) ≡ true
or_right a b h = ground arith

any_resumes-get :
    (h : Host) (ep : EndpointState) (endpoints : Dict EndpointState)
    → Dict.get ep.id endpoints ≡ some ep
    → resumable h ep ≡ true
    → any_resumes h ep.id (Dict.values endpoints) ≡ true
unfolding Dict.get
any_resumes-get h ep [] found ready = absurd cc
any_resumes-get h ep ((k, v) ∷ endpoints) found ready = elim (Bool-cases (str_eq k ep.id)) [
  | inl e ↦
      let hit : some v ≡ some ep = rw (e, Dict.get) at found in
      let same : ep ≡ v = cc in rw (sym same, str_eq_refl ep.id, ready) refl
  | inr e ↦ or_right _ _ (any_resumes-get h ep endpoints (rw (e, Dict.get) at found) ready)
]

any_resumes-in :
    (h : Host) (ep : EndpointState) (net : NetworkState)
    → endpoint_in ep.id (some net) ≡ some ep
    → resumable h ep ≡ true
    → any_resumes h ep.id (Dict.values (or_made net.endpoints)) ≡ true
any_resumes-in h ep net found ready = elim (Option-cases net.endpoints) [
  | inl e ↦ absurd (cc (rw e at found))
  | inr (m, e) ↦ rw e (any_resumes-get h ep m (rw e at found) ready)
]

any_network-get :
    (h : Host) (ep : EndpointState) (n : Text) (networks : Dict NetworkState)
    → endpoint_in ep.id (Dict.get n networks) ≡ some ep
    → resumable h ep ≡ true
    → any_network h ep.id (Dict.values networks) ≡ true
unfolding Dict.get
any_network-get h ep n [] found ready = absurd cc
any_network-get h ep n ((k, net) ∷ networks) found ready = elim (Bool-cases (str_eq k n)) [
  | inl e ↦ rw (any_resumes-in h ep net (rw (e, Dict.get) at found) ready) refl
  | inr e ↦ or_right _ _ (any_network-get h ep n networks (rw (e, Dict.get) at found) ready)
]

cache-new_plugin :
    (s : Setting) (d : Disk) (p : Plugin)
    → new_plugin s d ≡ ok p
    → p.cache
      ≡ reconcile s.decode_opts s.outcome s.answer (new_network_cache s.partial s.readable d)
unfolding new_plugin
cache-new_plugin s d p made = elim (Option-cases s.client_error) [
  | inr (e, h) ↦ absurd (cc (rw (h, new_plugin) at made))
  | inl h ↦
      let built = rw (h, new_plugin) at made in
      let same : p ≡ booted s d = cc in ap (λ (q : Plugin). q.cache) same
]

has-recover_known :
    (h : Host) (p : Plugin) (id : Text) (ep : EndpointState)
    → get_endpoint id ep.id p.cache ≡ some ep
    → resumable h ep ≡ true
    → Dict.has ep.id (recover h p).persistent_dhcp ≡ true
unfolding get_endpoint get_all
has-recover_known h p id ep found ready =
    has-recover h p ep.id ∙ rw (any_network-get h ep id p.cache.networks found ready) refl

-- A restart of the plugin goes on where the process before it stopped: an endpoint that was in the
-- saved cache is in the new one, unchanged, exactly if Docker still shows a container on its network
-- that has it; and Recover, on the new plugin, starts a DHCP manager for it, if its namespace is not
-- gone and the manager starts. This is for a file that is the document of the saved networks and can
-- be read, networks whose maps have each key once, a network that Docker lists for this plugin, and
-- an endpoint under its own id.
pub restart_resumes :
    (s : Setting) (d : Disk) (h : Host) (c : NetworkCache) (ns : List Inspect) (p : Plugin)
    (id : Text) (n : Inspect) (ep : EndpointState)
    → new_plugin s d ≡ ok p
    → d.file ≡ some (document (encode_networks c.networks))
    → IsCache c.networks
    → s.readable ≡ true
    → s.answer ≡ listed ns
    → Dict.get id (plugin_networks ns []) ≡ some n
    → get_endpoint id ep.id c ≡ some ep
    → (get_endpoint id ep.id p.cache ≡ (if is_attached n ep.id then some ep else none))
      × ((is_attached n ep.id
            && (resumable h ep && not (Dict.has ep.id (recover h p).persistent_dhcp)))
          ≡ false)
restart_resumes s d h c ns p id n ep made file maps readable answer lists known =
    let loaded : NetworkCache = new_network_cache s.partial true d in
    let made_cache : p.cache ≡ reconcile s.decode_opts s.outcome (listed ns) loaded =
      cache-new_plugin s d p made ∙ rw (answer, readable) refl in
    let read : get_endpoint id ep.id loaded ≡ some ep =
      (answers-load c d s.partial id ep.id maps file).0 ∙ known in
    let kept : get_endpoint id ep.id p.cache ≡ (if is_attached n ep.id then some ep else none) =
      ap (get_endpoint id ep.id) made_cache
      ∙ (endpoint-reconcile s.decode_opts s.outcome ns loaded id ep.id n lists).0
      ∙ rw read refl in
    (
      kept,
      elim (Bool-cases (is_attached n ep.id)) [
        | inr a ↦ rw a refl
        | inl a ↦ elim (Bool-cases (resumable h ep)) [
          | inr b ↦ rw (a, b) refl
          | inl b ↦ rw (a, b, has-recover_known h p id ep (rw a at kept) b) refl
        ]
      ],
    )
