-- ===== src/Network/Join/Hints.antt =====
-- The hints by which CreateEndpoint tells Join of pkg/plugin/network.go about an endpoint.
use docker_net_dhcp.Shared.{
  ℕ, Bool, true, false, Option, none, some, ◌≡◌, inl, inr, if-both, Option-cases, Bool-cases,
}
use docker_net_dhcp.Shared.Text.{Text, is_empty}
use docker_net_dhcp.Shared.Dict
use docker_net_dhcp.Shared.Dict.{get-put, get-put_self, get-del}
use docker_net_dhcp.Shared.Result.{Result, ok, err, Result-cases}
use docker_net_dhcp.Driver.{DhcpNetworkOptions}
use docker_net_dhcp.Macgen
use docker_net_dhcp.Errors.{Error}
use docker_net_dhcp.Plugin.{Plugin, JoinHint}
use docker_net_dhcp.Udhcpc.{Info}
use docker_net_dhcp.Network.{World, mac_format_from_opts, veth_pair_names, lease_options}
use docker_net_dhcp.Network.Identify.{
  CreateEndpointRequest, EndpointInterface, Identity, requested_mac,
}
use docker_net_dhcp.Network.Create.{
  set_hint, mac_seed_of, choose_mac, take_lease, initial_ip, then_v6, setup, make_link, after_setup,
  call_link_add, shown,
}

abbrev pub HasHint : Text → Plugin → Type 0
HasHint id p = (hint : JoinHint) × (Dict.get id p.join_hints ≡ some hint)

set_hint-HasHint : (id : Text) (hint : JoinHint) (p : Plugin) → HasHint id (set_hint id hint p)
unfolding set_hint
set_hint-HasHint id hint p = (hint, get-put_self id hint p.join_hints)

module _ (w : World) (opts : DhcpNetworkOptions) (r : CreateEndpointRequest) where
  take_lease-HasHint :
      (info : Info) (s : Plugin × EndpointInterface)
      → HasHint r.endpoint_id (take_lease w opts r info s).0
  unfolding take_lease
  take_lease-HasHint info (p, i) =
      if-both {A = Plugin × EndpointInterface} (λ t. HasHint r.endpoint_id t.0) opts.ipv6 _ _
        (set_hint-HasHint r.endpoint_id _ p) (set_hint-HasHint r.endpoint_id _ p)

  initial_ip-HasHint :
      (hostname mac : Text) (k : ℕ) (v6 : Bool) (s : Plugin × EndpointInterface)
      → HasHint r.endpoint_id s.0
      → HasHint r.endpoint_id (initial_ip w opts r hostname mac k v6 s).0.0
  unfolding initial_ip
  initial_ip-HasHint hostname mac k v6 s hinted =
      elim (Result-cases (w.get_ip k (lease_options hostname mac opts.ipv6))) [
        | inl (e, h) ↦ rw (h, initial_ip) hinted
        | inr (info, h) ↦ rw (h, initial_ip) (take_lease-HasHint info s)
      ]

  then_v6-HasHint :
      (hostname mac : Text) (t : (Plugin × EndpointInterface) × Option Error)
      → HasHint r.endpoint_id t.0.0
      → HasHint r.endpoint_id (then_v6 w opts r hostname mac t).0.0
  then_v6-HasHint hostname mac (s, some e) hinted = hinted
  then_v6-HasHint hostname mac (s, none) hinted =
      if-both {A = (Plugin × EndpointInterface) × Option Error} (λ t. HasHint r.endpoint_id t.0.0)
        opts.ipv6 _ _ (initial_ip-HasHint hostname mac 1 true s hinted) hinted

  setup-HasHint :
      (ctr_name mac : Text) (s : Plugin × EndpointInterface)
      → HasHint r.endpoint_id s.0
      → HasHint r.endpoint_id (setup w opts r ctr_name mac s).0.0
  unfolding setup
  setup-HasHint ctr_name mac (p, i) hinted = elim (Result-cases (w.link_by_name ctr_name)) [
    | inl (e, h) ↦ rw (h, setup) hinted
    | inr (kind, h) ↦
        rw (h, setup)
          (then_v6-HasHint _ mac (initial_ip w opts r _ mac 0 false (p, i))
            (initial_ip-HasHint _ mac 0 false (p, i) hinted))
  ]

  after_setup-HasHint :
      (t : (Plugin × EndpointInterface) × Option Error)
      → HasHint r.endpoint_id t.0.0
      → HasHint r.endpoint_id (after_setup r.endpoint_id t).0
  after_setup-HasHint ((q, i), some e) hinted = hinted
  after_setup-HasHint ((q, i), none) hinted = hinted

  pub make_link-HasHint :
      (m : Plugin × Result Macgen.Error (Text × Text))
      → HasHint r.endpoint_id m.0
      → HasHint r.endpoint_id (make_link w opts r m).0
  unfolding make_link
  make_link-HasHint (p, err e) hinted = hinted
  make_link-HasHint (p, ok (mac, response_mac)) hinted = elim (Option-cases w.link_add_error) [
    | inr (e, h) ↦ rw (h, make_link) hinted
    | inl h ↦
        rw (h, make_link)
          (after_setup-HasHint
            (setup w opts r (veth_pair_names r.endpoint_id).1 mac
              (call_link_add r.endpoint_id mac p, shown response_mac))
            (setup-HasHint _ mac (call_link_add r.endpoint_id mac p, shown response_mac) hinted))
  ]

  pub choose_mac-HasHint :
      (who : Identity) (p : Plugin) → HasHint r.endpoint_id (choose_mac opts r who p).0
  unfolding choose_mac
  choose_mac-HasHint who p = elim (Bool-cases (is_empty (requested_mac r))) [
    | inr h ↦ rw (h, choose_mac) (set_hint-HasHint r.endpoint_id _ p)
    | inl h ↦
        elim (Result-cases (
          Macgen.generate (record {
            seed = mac_seed_of r.endpoint_id who;
            format = mac_format_from_opts opts;
          }))) [
            | inl (e, g) ↦ rw (h, g, choose_mac) (set_hint-HasHint r.endpoint_id _ p)
            | inr (mac, g) ↦ rw (h, g, choose_mac) (set_hint-HasHint r.endpoint_id _ p)
          ]
  ]
