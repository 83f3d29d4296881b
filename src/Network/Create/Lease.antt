-- ===== src/Network/Create/Lease.antt =====
-- The link and the leases of CreateEndpoint in pkg/plugin/network.go: what a request that gets them
-- returns, and what becomes of the link of one that does not.
use docker_net_dhcp.Shared.{
  ℕ, [], ◌∷◌, ◌++◌, Bool, true, false, Option, none, some, ◌≡◌, refl, ◌∙◌, ◌⊎◌, inl, inr, arith,
  if-both, Option-cases, append_assoc,
}
use docker_net_dhcp.Shared.Text.{Text}
use docker_net_dhcp.Shared.Result.{Result, ok, err, Result-cases}
use docker_net_dhcp.Driver.{DhcpNetworkOptions}
use docker_net_dhcp.Macgen
use docker_net_dhcp.Errors.{Error}
use docker_net_dhcp.Plugin.{Plugin, link_add, link_del}
use docker_net_dhcp.Udhcpc.{ClientOptions, Info}
use docker_net_dhcp.Network.{World, veth_pair_names, lease_options}
use docker_net_dhcp.Network.Identify.{CreateEndpointRequest, EndpointInterface}
use docker_net_dhcp.Network.Create.{
  set_hint, take_lease, initial_ip, then_v6, setup, make_link, after_setup, call_link_add, shown,
  or_nil,
}

-- the kernel has the links and udhcpc obtains its leases
pub record Works (w : World) : Type 0 where
  pub finds : (name : Text) → (kind : Text) × (w.link_by_name name ≡ ok kind)
  pub adds : w.link_add_error ≡ none
  pub leases : (k : ℕ) (o : ClientOptions) → (info : Info) × (w.get_ip k o ≡ ok info)

-- a state with the interface's MAC address and no new call
abbrev pub Same : Plugin × EndpointInterface → Plugin × EndpointInterface → Type 0
Same s t = (t.1.mac_address ≡ s.1.mac_address) × (t.0.calls ≡ s.0.calls)

-- what a request has asked of the kernel when it ends: a link that it adds stays exactly if it
-- returns a response
abbrev pub Balanced :
    CreateEndpointRequest → Plugin → Plugin × Result Error (Option EndpointInterface) → Type 0
Balanced r p (q, err e) =
    (q.calls ≡ p.calls)
    ⊎ ((mac : Text) × (q.calls
          ≡ p.calls
            ++ link_add (veth_pair_names r.endpoint_id).0 (veth_pair_names r.endpoint_id).1 mac
              ∷ link_del (veth_pair_names r.endpoint_id).0
              ∷ []))
Balanced r p (q, ok i) =
    (mac : Text) × (q.calls
      ≡ p.calls
        ++ link_add (veth_pair_names r.endpoint_id).0 (veth_pair_names r.endpoint_id).1 mac ∷ [])

module _ (w : World) (opts : DhcpNetworkOptions) (r : CreateEndpointRequest) where
  mac-take_lease :
      (info : Info) (s : Plugin × EndpointInterface)
      → (take_lease w opts r info s).1.mac_address ≡ s.1.mac_address
  unfolding take_lease
  mac-take_lease info (p, i) = ground arith

  calls-take_lease :
      (info : Info) (s : Plugin × EndpointInterface)
      → (take_lease w opts r info s).0.calls ≡ s.0.calls
  unfolding take_lease set_hint
  calls-take_lease info (p, i) = ground arith

  initial_ip-Same :
      (hostname mac : Text) (k : ℕ) (v6 : Bool) (s : Plugin × EndpointInterface)
      → Same s (initial_ip w opts r hostname mac k v6 s).0
  unfolding initial_ip
  initial_ip-Same hostname mac k v6 s =
      elim (Result-cases (w.get_ip k (lease_options hostname mac opts.ipv6))) [
        | inl (e, h) ↦ rw (h, initial_ip) (refl, refl)
        | inr (info, h) ↦ rw (h, initial_ip) (mac-take_lease info s, calls-take_lease info s)
      ]

  initial_ip-Works :
      (hostname mac : Text) (k : ℕ) (v6 : Bool) (s : Plugin × EndpointInterface)
      → Works w
      → (initial_ip w opts r hostname mac k v6 s).1 ≡ none
  unfolding initial_ip
  initial_ip-Works hostname mac k v6 s works =
      rw ((works.leases k (lease_options hostname mac opts.ipv6)).1, initial_ip) refl

  then_v6-Same :
      (hostname mac : Text) (s : Plugin × EndpointInterface)
      (t : (Plugin × EndpointInterface) × Option Error)
      → Same s t.0
      → Same s (then_v6 w opts r hostname mac t).0
  then_v6-Same hostname mac s (t, some e) same = same
  then_v6-Same hostname mac s (t, none) same =
      let more = initial_ip-Same hostname mac 1 true t in
      if-both {A = (Plugin × EndpointInterface) × Option Error} (λ u. Same s u.0) opts.ipv6 _ _
        (more.0 ∙ same.0, more.1 ∙ same.1) same

  then_v6-Works :
      (hostname mac : Text) (t : (Plugin × EndpointInterface) × Option Error)
      → Works w
      → t.1 ≡ none
      → (then_v6 w opts r hostname mac t).1 ≡ none
  then_v6-Works hostname mac (t, some e) works h = cc
  then_v6-Works hostname mac (t, none) works h =
      if-both {A = (Plugin × EndpointInterface) × Option Error} (λ u. u.1 ≡ none) opts.ipv6 _ _
        (initial_ip-Works hostname mac 1 true t works) refl

  pub setup-Same :
      (ctr_name mac : Text) (s : Plugin × EndpointInterface)
      → Same s (setup w opts r ctr_name mac s).0
  unfolding setup
  setup-Same ctr_name mac (p, i) = elim (Result-cases (w.link_by_name ctr_name)) [
    | inl (e, h) ↦ rw (h, setup) (refl, refl)
    | inr (kind, h) ↦
        rw (h, setup)
          (then_v6-Same _ mac (p, i) (initial_ip w opts r _ mac 0 false (p, i))
            (initial_ip-Same _ mac 0 false (p, i)))
  ]

  pub setup-Works :
      (ctr_name mac : Text) (s : Plugin × EndpointInterface)
      → Works w
      → (setup w opts r ctr_name mac s).1 ≡ none
  unfolding setup
  setup-Works ctr_name mac (p, i) works =
      rw ((works.finds ctr_name).1, setup)
        (then_v6-Works _ mac (initial_ip w opts r _ mac 0 false (p, i)) works
          (initial_ip-Works _ mac 0 false (p, i) works))

  after_setup-Balanced :
      (mac : Text) (p : Plugin) (i : EndpointInterface)
      (t : (Plugin × EndpointInterface) × Option Error)
      → Same (call_link_add r.endpoint_id mac p, i) t.0
      → Balanced r p (after_setup r.endpoint_id t)
  after_setup-Balanced mac p i ((q, j), some e) same = inr (
    mac,
    rw same.1 (
        append_assoc p.calls
          (link_add (veth_pair_names r.endpoint_id).0 (veth_pair_names r.endpoint_id).1 mac ∷ [])
          (link_del (veth_pair_names r.endpoint_id).0 ∷ [])),
  )
  after_setup-Balanced mac p i ((q, j), none) same = (mac, same.1)

  pub make_link-Balanced :
      (p : Plugin) (chosen : Result Macgen.Error (Text × Text))
      → Balanced r p (make_link w opts r (p, chosen))
  unfolding make_link
  make_link-Balanced p (err e) = inl refl
  make_link-Balanced p (ok (mac, response_mac)) = elim (Option-cases w.link_add_error) [
    | inr (e, h) ↦ rw (h, make_link) (inl refl)
    | inl h ↦
        rw (h, make_link)
          (after_setup-Balanced mac p (shown response_mac)
            (setup w opts r (veth_pair_names r.endpoint_id).1 mac
              (call_link_add r.endpoint_id mac p, shown response_mac))
            (setup-Same _ mac (call_link_add r.endpoint_id mac p, shown response_mac)))
  ]

  after_setup-Works :
      (i : EndpointInterface) (p : Plugin) (t : (Plugin × EndpointInterface) × Option Error)
      → Same (p, i) t.0
      → t.1 ≡ none
      → (j : EndpointInterface) × ((after_setup r.endpoint_id t).1 ≡ ok (or_nil j))
        × (j.mac_address ≡ i.mac_address)
  after_setup-Works i p ((q, j), none) same h = (j, refl, same.0)
  after_setup-Works i p ((q, j), some e) same h = cc

  -- with links and leases, the request returns the address that it has chosen to show
  pub make_link-Works :
      (p : Plugin) (mac response_mac : Text)
      → Works w
      → (j : EndpointInterface) × ((make_link w opts r (p, ok (mac, response_mac))).1
          ≡ ok (or_nil j))
        × (j.mac_address ≡ response_mac)
  unfolding make_link
  make_link-Works p mac response_mac works =
      rw (works.adds, make_link)
        (after_setup-Works (shown response_mac) (call_link_add r.endpoint_id mac p)
          (setup w opts r (veth_pair_names r.endpoint_id).1 mac
            (call_link_add r.endpoint_id mac p, shown response_mac))
          (setup-Same _ mac (call_link_add r.endpoint_id mac p, shown response_mac))
          (setup-Works _ mac (call_link_add r.endpoint_id mac p, shown response_mac) works))
