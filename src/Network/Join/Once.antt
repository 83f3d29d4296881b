-- ===== src/Network/Join/Once.antt =====
-- A Join of pkg/plugin/network.go finds the hint of its CreateEndpoint, and uses it up.
use docker_net_dhcp.Shared.{Option, none, ◌≡◌, refl, ◌∙◌, ap, inl, inr, Option-cases}
use docker_net_dhcp.Shared.Text.{Text, str_eq_refl}
use docker_net_dhcp.Shared.Dict
use docker_net_dhcp.Shared.Dict.{get-del}
use docker_net_dhcp.Shared.Result.{Result, ok, err, Result-cases}
use docker_net_dhcp.Driver.{DhcpNetworkOptions}
use docker_net_dhcp.Cache.Ops.{get_network}
use docker_net_dhcp.Errors.{Error, no_hint}
use docker_net_dhcp.Plugin.{Plugin}
use docker_net_dhcp.Network.{World, net_options}
use docker_net_dhcp.Network.Identify.{CreateEndpointRequest, EndpointInterface, identify}
use docker_net_dhcp.Network.Create.{note_identity, choose_mac, with_options, create_endpoint}
use docker_net_dhcp.Network.Join.{
  Routes, JoinRequest, JoinResponse, join_with, join, bridge_routes, first_response,
}
use docker_net_dhcp.Network.Join.Hints.{HasHint, choose_mac-HasHint, make_link-HasHint}

-- CreateEndpoint leaves a hint if it returns a response
create_endpoint-HasHint :
    (w : World) (r : CreateEndpointRequest) (p : Plugin) (i : Option EndpointInterface)
    → (create_endpoint w r p).1 ≡ ok i
    → HasHint r.endpoint_id (create_endpoint w r p).0
unfolding create_endpoint with_options
create_endpoint-HasHint w r p i = go (net_options w r.network_id p)
  where
    go :
        (s : Plugin × Result Error DhcpNetworkOptions)
        → (with_options w r s).1 ≡ ok i
        → HasHint r.endpoint_id (with_options w r s).0
    go (q, err e) h = absurd cc
    go (q, ok opts) h = elim (Result-cases (w.link_by_name opts.bridge)) [
      | inl (e, g) ↦ absurd (cc (rw (g, with_options) at h))
      | inr (kind, g) ↦
          let s = identify w r q in
          rw (g, with_options)
            (make_link-HasHint w opts r
              (choose_mac opts r s.1 (note_identity r.endpoint_id s.1 s.0))
              (choose_mac-HasHint w opts r s.1 (note_identity r.endpoint_id s.1 s.0)))
    ]

pub hints-net_options :
    (w : World) (id : Text) (p : Plugin) → (net_options w id p).0.join_hints ≡ p.join_hints
unfolding net_options
hints-net_options w id p = elim (Option-cases (get_network id p.cache)) [
  | inr (state, h) ↦ rw (h, net_options) refl
  | inl h ↦ elim (Option-cases (w.network_inspect id)) [
    | inl e ↦ rw (h, e, net_options) refl
    | inr (n, e) ↦ rw (h, e, net_options) refl
  ]
]

join_with_hint :
    (w : World) (routes : Routes) (r : JoinRequest) (s : Plugin × Result Error DhcpNetworkOptions)
    (opts : DhcpNetworkOptions)
    → s.1 ≡ ok opts
    → HasHint r.endpoint_id s.0
    → (res : JoinResponse) × ((join_with w routes r s).1 ≡ ok res)
unfolding join_with
join_with_hint w routes r (p, o) opts known (hint, h) =
    (bridge_routes w routes opts (first_response r hint), rw (known, join_with, h) refl)

-- Once CreateEndpoint has returned a response, a Join for its endpoint succeeds, provided that the
-- options of the network are still to be had: the hint is there, whichever way the container was
-- identified and whichever MAC address was taken.
pub join-create_endpoint :
    (w w' : World) (routes : Routes) (r : CreateEndpointRequest) (sandbox_key : Text) (p : Plugin)
    (i : Option EndpointInterface) (opts : DhcpNetworkOptions)
    → (create_endpoint w r p).1 ≡ ok i
    → (net_options w' r.network_id (create_endpoint w r p).0).1 ≡ ok opts
    → (res : JoinResponse) × ((join w' routes
          (record {
            network_id = r.network_id;
            endpoint_id = r.endpoint_id;
            sandbox_key = sandbox_key;
          })
          (create_endpoint w r p).0).1
        ≡ ok res)
unfolding join
join-create_endpoint w w' routes r sandbox_key p i opts made known =
    let q = (create_endpoint w r p).0 in
    let (hint, h) = create_endpoint-HasHint w r p i made in
    join_with_hint w' routes
      (record { network_id = r.network_id; endpoint_id = r.endpoint_id; sandbox_key = sandbox_key })
      (net_options w' r.network_id q) opts known
      (hint, ap (Dict.get r.endpoint_id) (hints-net_options w' r.network_id q) ∙ h)

joined_no_hint :
    (w : World) (routes : Routes) (r : JoinRequest) (s : Plugin × Result Error DhcpNetworkOptions)
    (res : JoinResponse)
    → (join_with w routes r s).1 ≡ ok res
    → Dict.get r.endpoint_id (join_with w routes r s).0.join_hints ≡ none
unfolding join_with
joined_no_hint w routes r (p, err e) res h = absurd cc
joined_no_hint w routes r (p, ok opts) res h =
    elim (Option-cases (Dict.get r.endpoint_id p.join_hints)) [
      | inl n ↦ absurd (cc (rw (n, join_with) at h))
      | inr (hint, n) ↦
          rw (n, join_with)
            (get-del r.endpoint_id r.endpoint_id p.join_hints ∙ rw (str_eq_refl r.endpoint_id) refl)
    ]

join_with_no_hint :
    (w : World) (routes : Routes) (r : JoinRequest) (s : Plugin × Result Error DhcpNetworkOptions)
    (opts : DhcpNetworkOptions)
    → s.1 ≡ ok opts
    → Dict.get r.endpoint_id s.0.join_hints ≡ none
    → join_with w routes r s ≡ (s.0, err no_hint)
unfolding join_with
join_with_no_hint w routes r (p, o) opts known h = rw (known, join_with, h) refl

-- A hint serves one Join: after a Join that succeeded, another one for the same endpoint that still
-- finds the options of the network reports the missing hint.
pub join_once :
    (w w' : World) (routes routes' : Routes) (r : JoinRequest) (p : Plugin) (res : JoinResponse)
    (opts : DhcpNetworkOptions)
    → (join w routes r p).1 ≡ ok res
    → (net_options w' r.network_id (join w routes r p).0).1 ≡ ok opts
    → (join w' routes' r (join w routes r p).0).1 ≡ err no_hint
unfolding join
join_once w w' routes routes' r p res opts joined known =
    let q = (join w routes r p).0 in
    let gone = joined_no_hint w routes r (net_options w r.network_id p) res joined in
    ap (λ (s : Plugin × Result Error JoinResponse). s.1)
      (join_with_no_hint w' routes' r (net_options w' r.network_id q) opts known
        (ap (Dict.get r.endpoint_id) (hints-net_options w' r.network_id q) ∙ gone))
