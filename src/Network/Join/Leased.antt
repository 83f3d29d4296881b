-- ===== src/Network/Join/Leased.antt =====
-- The lease of a network without IPv6 on its way to Docker: from the handler of udhcpc over GetIP and
-- CreateEndpoint to Join of pkg/plugin/network.go.
mod Examples
use docker_net_dhcp.Shared.{
  ℕ, List, [], ◌∷◌, ◌++◌, Bool, true, false, Option, none, some, if◌then◌else◌, ◌≡◌, ◌≢◌, refl, ◌∙◌,
  ap, inl, inr, arith, All, Option-cases, if-both, sym,
}
use docker_net_dhcp.Shared.Text.{Text, text}
use docker_net_dhcp.Shared.Dict
use docker_net_dhcp.Shared.Dict.{get-put_self}
use docker_net_dhcp.Shared.Result.{Result, ok, err, Result-cases}
use docker_net_dhcp.Driver.{DhcpNetworkOptions}
use docker_net_dhcp.Macgen
use docker_net_dhcp.Errors.{Error}
use docker_net_dhcp.Plugin.{Plugin, JoinHint}
use docker_net_dhcp.Udhcpc
use docker_net_dhcp.Udhcpc.{ClientOptions, Info, Process}
use docker_net_dhcp.Udhcpc.Lease.{IsRun, lines_of}
use docker_net_dhcp.Udhcpc.Handler.{v4_info}
use docker_net_dhcp.Udhcpc.Handler.Reach.{
  Call, outputs, is_lease_kind, v4_info-lease_of, get_ip-handle,
}
use docker_net_dhcp.Network.{World, net_options, veth_pair_names, lease_options}
use docker_net_dhcp.Network.Identify.{CreateEndpointRequest, EndpointInterface, identify}
use docker_net_dhcp.Network.Create.{
  set_hint, is_open, note_identity, choose_mac, take_lease, initial_ip, then_v6, setup, make_link,
  after_setup, with_options, create_endpoint, or_nil, shown, call_link_add,
}
use docker_net_dhcp.Network.Join.{
  Routes, JoinRequest, JoinResponse, join_with, join, bridge_routes, first_response,
}
use docker_net_dhcp.Network.Join.Once.{hints-net_options}
use docker_net_dhcp.Network.Join.Routing.{gateway-add_routes}

-- the IPv4 address of an answer, or "" where it has none
abbrev pub address_of : Option EndpointInterface → Text
address_of none = []
address_of (some i) = i.address

-- the address that the answer has for a lease
abbrev pub open_address : CreateEndpointRequest → Text → Text
open_address r ip = if is_open (λ j. j.address) r then ip else []

-- the hint of an endpoint has the gateway
abbrev HasGateway : Text → Text → Plugin → Type 0
HasGateway id gateway p =
    (hint : JoinHint) × (Dict.get id p.join_hints ≡ some hint) × (hint.gateway ≡ gateway)

address-or_nil : (i : EndpointInterface) → address_of (or_nil i) ≡ i.address
address-or_nil i = go i.address i.address_ipv6 i.mac_address
  where
    go :
        (a b c : Text)
        → address_of (or_nil (record { address = a; address_ipv6 = b; mac_address = c })) ≡ a
    go [] b c = ground arith
    go (x ∷ a) b c = refl

module _ (w : World) (opts : DhcpNetworkOptions) (r : CreateEndpointRequest) (info : Info)
    (single : opts.ipv6 ≡ false) (leases : (o : ClientOptions) → w.get_ip 0 o ≡ ok info) where
  -- the lease is in the hint and in the interface
  abbrev Taken : Plugin × EndpointInterface → Type 0
  Taken (p, i) = HasGateway r.endpoint_id info.gateway p × (i.address ≡ open_address r info.ip)

  take_lease-Taken :
      (p : Plugin) (i : EndpointInterface)
      → i.address ≡ []
      → Taken (take_lease w opts r info (p, i))
  unfolding take_lease set_hint
  take_lease-Taken p i bare =
      rw single ((_, get-put_self r.endpoint_id _ p.join_hints, refl), ground (arith, bare))

  initial_ip_taken :
      (hostname mac : Text) (v6 : Bool) (s : Plugin × EndpointInterface)
      → initial_ip w opts r hostname mac 0 v6 s ≡ (take_lease w opts r info s, none)
  unfolding initial_ip
  initial_ip_taken hostname mac v6 s =
      rw (leases (lease_options hostname mac opts.ipv6), initial_ip) refl

  then_v6_single :
      (hostname mac : Text) (s : Plugin × EndpointInterface)
      → then_v6 w opts r hostname mac (s, none) ≡ (s, none)
  then_v6_single hostname mac s = rw single refl

  setup-Taken :
      (ctr_name mac : Text) (p : Plugin) (i : EndpointInterface)
      → i.address ≡ []
      → (setup w opts r ctr_name mac (p, i)).1 ≡ none
      → Taken (setup w opts r ctr_name mac (p, i)).0
  unfolding setup
  setup-Taken ctr_name mac p i bare done = elim (Result-cases (w.link_by_name ctr_name)) [
    | inl (e, h) ↦ absurd (cc (rw (h, setup) at done))
    | inr (kind, h) ↦
        rw
          (
            h,
            setup,
            initial_ip_taken _ mac false (p, i),
            then_v6_single _ mac (take_lease w opts r info (p, i)),
          )
          (take_lease-Taken p i bare)
  ]

  after_setup-Taken :
      (t : (Plugin × EndpointInterface) × Option Error) (i : Option EndpointInterface)
      → (t.1 ≡ none → Taken t.0)
      → (after_setup r.endpoint_id t).1 ≡ ok i
      → HasGateway r.endpoint_id info.gateway (after_setup r.endpoint_id t).0
        × (address_of i ≡ open_address r info.ip)
  after_setup-Taken ((q, j), some e) i taken h = absurd cc
  after_setup-Taken ((q, j), none) i taken h =
      let (hinted, address) = taken refl in
      let same : i ≡ or_nil j = cc in (hinted, ap address_of same ∙ (address-or_nil j ∙ address))

  make_link-Taken :
      (m : Plugin × Result Macgen.Error (Text × Text)) (i : Option EndpointInterface)
      → (make_link w opts r m).1 ≡ ok i
      → HasGateway r.endpoint_id info.gateway (make_link w opts r m).0
        × (address_of i ≡ open_address r info.ip)
  unfolding make_link
  make_link-Taken (p, err e) i h = absurd cc
  make_link-Taken (p, ok (mac, response_mac)) i h = elim (Option-cases w.link_add_error) [
    | inr (e, a) ↦ absurd (cc (rw (a, make_link) at h))
    | inl a ↦
        rw (a, make_link)
          (after_setup-Taken _ i
            (setup-Taken (veth_pair_names r.endpoint_id).1 mac (call_link_add r.endpoint_id mac p)
              (shown response_mac) refl)
            (rw (a, make_link) at h))
  ]

  with_options-Taken :
      (s : Plugin × Result Error DhcpNetworkOptions) (i : Option EndpointInterface)
      → s.1 ≡ ok opts
      → (with_options w r s).1 ≡ ok i
      → HasGateway r.endpoint_id info.gateway (with_options w r s).0
        × (address_of i ≡ open_address r info.ip)
  unfolding with_options
  with_options-Taken (q, o) i known h = elim (Result-cases (w.link_by_name opts.bridge)) [
    | inl (e, g) ↦ absurd (cc (rw (known, with_options, g) at h))
    | inr (kind, g) ↦
        rw (known, with_options, g) (make_link-Taken _ i (rw (known, with_options, g) at h))
  ]

-- what the answer to Join has as its gateway
bridge_routes-gateway :
    (w : World) (routes : Routes) (opts : DhcpNetworkOptions) (res : JoinResponse)
    → res.gateway ≢ []
    → (bridge_routes w routes opts res).gateway ≡ res.gateway
unfolding bridge_routes
bridge_routes-gateway w routes opts res h = elim (Result-cases (w.link_by_name opts.bridge)) [
  | inl (e, g) ↦ rw (g, bridge_routes) refl
  | inr (kind, g) ↦
      let first = gateway-add_routes opts false (routes opts.bridge false) res h in
      rw (g, bridge_routes)
        (if-both {A = JoinResponse} (λ t. t.gateway ≡ res.gateway) opts.ipv6 _ _
          (gateway-add_routes opts true (routes opts.bridge true) _ (λ p. h (sym first ∙ p))
            ∙ first)
          first)
]

join_with-gateway :
    (w : World) (routes : Routes) (r : JoinRequest) (s : Plugin × Result Error DhcpNetworkOptions)
    (gateway : Text) (res : JoinResponse)
    → HasGateway r.endpoint_id gateway s.0
    → gateway ≢ []
    → (join_with w routes r s).1 ≡ ok res
    → res.gateway ≡ gateway
unfolding join_with
join_with-gateway w routes r (p, err e) gateway res hinted given h = absurd cc
join_with-gateway w routes r (p, ok opts) gateway res (hint, found, same) given h =
    let start = first_response r hint in
    let answer : ok (bridge_routes w routes opts start) ≡ ok res = rw (found, join_with) at h in
    let built : res ≡ bridge_routes w routes opts start = cc in
    ap (λ t. t.gateway) built
    ∙ (bridge_routes-gateway w routes opts start (λ p. given (sym same ∙ p)) ∙ same)

-- the lease of a run of the handler is the last one that udhcpc was given, over IPv4, and the client
-- has come to its end
pub record IsObtained (client : Process) (c : Call) : Type 0 where
  pub before : List Call
  pub after : List Call
  pub fine : IsRun client
  pub lines : client.lines ≡ lines_of (outputs (before ++ c ∷ after))
  pub lease : is_lease_kind c.kind ≡ true
  pub single : Dict.get (text "ipv6") c.env ≡ none
  pub writable : c.machine.writable ≡ true
  pub final : All (λ d. is_lease_kind d.kind ≡ false) after

-- What the DHCP server gives reaches Docker: on a network without IPv6, where udhcpc was given a lease
-- with a router, CreateEndpoint, if it answers without an error, answers with the address of the
-- lease, unless the request has one, and a Join after it, if it answers without an error, has the
-- router of the lease as its gateway, whatever routes the bridge has.
pub join-handle :
    (w w' : World) (routes : Routes) (r : CreateEndpointRequest) (sandbox_key : Text) (p : Plugin)
    (opts : DhcpNetworkOptions) (client : Process) (c : Call) (i : Option EndpointInterface)
    (res : JoinResponse)
    → (net_options w r.network_id p).1 ≡ ok opts
    → opts.ipv6 ≡ false
    → ((o : ClientOptions)
        → w.get_ip 0 o ≡ Udhcpc.get_ip client (veth_pair_names r.endpoint_id).1 o)
    → IsObtained client c
    → (v4_info c.env).gateway ≢ []
    → (create_endpoint w r p).1 ≡ ok i
    → (join w' routes
        (record {
          network_id = r.network_id;
          endpoint_id = r.endpoint_id;
          sandbox_key = sandbox_key;
        })
        (create_endpoint w r p).0).1
      ≡ ok res
    → (address_of i ≡ open_address r (v4_info c.env).ip) × (res.gateway ≡ (v4_info c.env).gateway)
unfolding create_endpoint join
join-handle w w' routes r sandbox_key p opts client c i res known single calls got given made
      joined =
    let leases : (o : ClientOptions) → w.get_ip 0 o ≡ ok (v4_info c.env) = λ o.
      calls o
      ∙ get_ip-handle client (veth_pair_names r.endpoint_id).1 o got.before got.after c got.fine
          got.lines got.lease got.single got.writable got.final
      ∙ ap ok (sym (v4_info-lease_of c.env)) in
    let q = (create_endpoint w r p).0 in
    let ((hint, found, same), address) =
      with_options-Taken w opts r (v4_info c.env) single leases (net_options w r.network_id p) i
        known made in
    (
      address,
      join_with-gateway w' routes
          (record {
            network_id = r.network_id;
            endpoint_id = r.endpoint_id;
            sandbox_key = sandbox_key;
          })
          (net_options w' r.network_id q) (v4_info c.env).gateway res
          (hint, ap (Dict.get r.endpoint_id) (hints-net_options w' r.network_id q) ∙ found, same)
          given joined,
    )
