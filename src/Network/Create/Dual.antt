-- ===== src/Network/Create/Dual.antt =====
-- The leases of CreateEndpoint in pkg/plugin/network.go on a network with IPv6.
use docker_net_dhcp.Shared.{
  ℕ, [], Bool, true, false, Option, none, some, ◌≡◌, refl, ◌∙◌, inl, inr, arith, Option-cases,
}
use docker_net_dhcp.Shared.Text.{Text}
use docker_net_dhcp.Shared.Result.{Result, ok, err, Result-cases}
use docker_net_dhcp.Driver.{DhcpNetworkOptions}
use docker_net_dhcp.Macgen
use docker_net_dhcp.Errors.{Error}
use docker_net_dhcp.Plugin.{Plugin}
use docker_net_dhcp.Udhcpc.{Info}
use docker_net_dhcp.Network.{World, net_options, lease_options}
use docker_net_dhcp.Network.Identify.{CreateEndpointRequest, EndpointInterface}
use docker_net_dhcp.Network.Create.{
  take_lease, initial_ip, then_v6, setup, make_link, after_setup, with_options, create_endpoint,
  or_nil, shown, call_link_add,
}

module _ (w : World) (opts : DhcpNetworkOptions) (r : CreateEndpointRequest)
    (dual : opts.ipv6 ≡ true) where
  address-take_lease :
      (info : Info) (s : Plugin × EndpointInterface)
      → (take_lease w opts r info s).1.address ≡ s.1.address
  unfolding take_lease
  address-take_lease info (p, i) = ground (arith, dual)

  address-initial_ip :
      (hostname mac : Text) (k : ℕ) (v6 : Bool) (s : Plugin × EndpointInterface)
      → (initial_ip w opts r hostname mac k v6 s).0.1.address ≡ s.1.address
  unfolding initial_ip
  address-initial_ip hostname mac k v6 s =
      elim (Result-cases (w.get_ip k (lease_options hostname mac opts.ipv6))) [
        | inl (e, h) ↦ rw (h, initial_ip) refl
        | inr (info, h) ↦ rw (h, initial_ip) (address-take_lease info s)
      ]

  address-then_v6 :
      (hostname mac : Text) (t : (Plugin × EndpointInterface) × Option Error)
      → (then_v6 w opts r hostname mac t).0.1.address ≡ t.0.1.address
  address-then_v6 hostname mac (s, some e) = refl
  address-then_v6 hostname mac (s, none) = simp dual (address-initial_ip hostname mac 1 true s)

  address-setup :
      (ctr_name mac : Text) (s : Plugin × EndpointInterface)
      → (setup w opts r ctr_name mac s).0.1.address ≡ s.1.address
  unfolding setup
  address-setup ctr_name mac (p, i) = elim (Result-cases (w.link_by_name ctr_name)) [
    | inl (e, h) ↦ rw (h, setup) refl
    | inr (kind, h) ↦
        rw (h, setup)
          (address-then_v6 _ mac (initial_ip w opts r _ mac 0 false (p, i))
            ∙ address-initial_ip _ mac 0 false (p, i))
  ]

  address-or_nil : (i j : EndpointInterface) → or_nil i ≡ some j → j.address ≡ i.address
  address-or_nil i j h = ground (arith, h)

  address-after_setup :
      (t : (Plugin × EndpointInterface) × Option Error) (j : EndpointInterface)
      → (after_setup r.endpoint_id t).1 ≡ ok (some j)
      → j.address ≡ t.0.1.address
  address-after_setup ((q, i), some e) j h = absurd cc
  address-after_setup ((q, i), none) j h = address-or_nil i j cc

  address-make_link :
      (m : Plugin × Result Macgen.Error (Text × Text)) (j : EndpointInterface)
      → (make_link w opts r m).1 ≡ ok (some j)
      → j.address ≡ []
  unfolding make_link
  address-make_link (p, err e) j h = absurd cc
  address-make_link (p, ok (mac, response_mac)) j h = elim (Option-cases w.link_add_error) [
    | inr (e, a) ↦ absurd (cc (rw (a, make_link) at h))
    | inl a ↦
        address-after_setup _ j (rw (a, make_link) at h)
        ∙ address-setup _ mac (call_link_add r.endpoint_id mac p, shown response_mac)
  ]

-- On a network with IPv6, CreateEndpoint never answers with an IPv4 address, whatever the DHCP server
-- would offer and although the request leaves the address open.
pub create_endpoint_dual :
    (w : World) (r : CreateEndpointRequest) (p : Plugin) (opts : DhcpNetworkOptions)
    (j : EndpointInterface)
    → (net_options w r.network_id p).1 ≡ ok opts
    → opts.ipv6 ≡ true
    → (create_endpoint w r p).1 ≡ ok (some j)
    → j.address ≡ []
unfolding create_endpoint with_options
create_endpoint_dual w r p opts j known dual made = go (net_options w r.network_id p) known made
  where
    go :
        (s : Plugin × Result Error DhcpNetworkOptions)
        → s.1 ≡ ok opts
        → (with_options w r s).1 ≡ ok (some j)
        → j.address ≡ []
    go (q, o) k h = elim (Result-cases (w.link_by_name opts.bridge)) [
      | inl (e, g) ↦ absurd (cc (rw (k, with_options, g) at h))
      | inr (kind, g) ↦ address-make_link w opts r dual _ j (rw (k, with_options, g) at h)
    ]
