-- ===== src/Network/Create.antt =====
-- CreateEndpoint of pkg/plugin/network.go, from the identified container on: the MAC address, the
-- link and the first lease.
pub mod Mac
pub mod Lease
pub mod Rollback
pub mod Dual
pub mod Queued
pub mod Restart
pub mod Sample
mod Examples
use docker_net_dhcp.Shared.{
  ℕ, List, [], ◌∷◌, ◌++◌, Bool, true, false, ◌&&◌, ◌||◌, Option, none, some, if◌then◌else◌,
}
use docker_net_dhcp.Shared.Text.{Text, text, str_eq, is_empty}
use docker_net_dhcp.Shared.Dict
use docker_net_dhcp.Shared.Result.{Result, ok, err}
use docker_net_dhcp.Driver.{DhcpNetworkOptions}
use docker_net_dhcp.Macgen
use docker_net_dhcp.Errors.{Error, wrapped, generation}
use docker_net_dhcp.Plugin.{Plugin, JoinHint, no_hint_yet, link_add, link_del, effective_hostname}
use docker_net_dhcp.Plugin.Events.{Container}
use docker_net_dhcp.Udhcpc.{ClientOptions, Info}
use docker_net_dhcp.Network.{
  World, net_options, veth_pair_names, mac_format_from_opts, lease_options,
}
use docker_net_dhcp.Network.Identify.{
  CreateEndpointRequest, EndpointInterface, Identity, requested_mac, identify,
}

-- p.joinHints[id], which is joinHint{} for a missing key
unfoldable pub hint_of : Text → Plugin → JoinHint
hint_of id p = elim (Dict.get id p.join_hints) [ none ↦ no_hint_yet | some hint ↦ hint ]

unfoldable pub set_hint : Text → JoinHint → Plugin → Plugin
set_hint id hint p = record p { join_hints = Dict.put id hint p.join_hints }

-- the hint that CreateEndpoint leaves about the container
abbrev pub note_identity : Text → Identity → Plugin → Plugin
note_identity id who p =
    set_hint id (record (hint_of id p) { hostname = who.hostname; seed_name = who.seed_name }) p

-- the goroutine after the deep fallback, once it has inspected the container that was taken: the
-- hint gets the container's own hostname, unless it has another one than its name by then
unfoldable pub refine_hint : Text → Text → Container → Plugin → Plugin
unfolding hint_of set_hint
refine_hint id seed_name ctr p =
    let hint = hint_of id p in
    if is_empty hint.hostname || str_eq hint.hostname seed_name
    then set_hint id (record hint { hostname = effective_hostname ctr.id ctr.hostname seed_name }) p
    else p

-- the hostname, or else the name, or else the endpoint's id
abbrev pub mac_seed_of : Text → Identity → Text
mac_seed_of id who =
    if is_empty who.hostname
    then (if is_empty who.seed_name then id else who.seed_name)
    else who.hostname

-- the address that the link gets and the one that the response shows, and the hint about them
unfoldable pub choose_mac :
    DhcpNetworkOptions
    → CreateEndpointRequest
    → Identity
    → Plugin
    → Plugin × Result Macgen.Error (Text × Text)
choose_mac opts r who p =
    let id = r.endpoint_id in
    if is_empty (requested_mac r)
    then (let seed = mac_seed_of id who in
        let q = set_hint id (record (hint_of id p) { mac_seed = seed }) p in
        elim (Macgen.generate (record { seed = seed; format = mac_format_from_opts opts })) [
          | err e ↦ (q, err e)
          | ok mac ↦ (q, ok (mac, mac))
        ])
    else (
      set_hint id (record (hint_of id p) { user_specified_mac = true }) p,
      ok (requested_mac r, []),
    )

-- whether the request leaves an address of the interface open
abbrev pub is_open : (EndpointInterface → Text) → CreateEndpointRequest → Bool
is_open field r = elim r.interface [ none ↦ true | some i ↦ is_empty (field i) ]

-- a lease is put in the response, where the request leaves the address open, and in the hint
unfoldable pub take_lease :
    World
    → DhcpNetworkOptions
    → CreateEndpointRequest
    → Info
    → Plugin × EndpointInterface
    → Plugin × EndpointInterface
take_lease w opts r info (p, i) =
    let id = r.endpoint_id in
    if opts.ipv6
    then (
      set_hint id (record (hint_of id p) { ipv6 = w.parse_addr info.ip }) p,
      if is_open (λ j. j.address_ipv6) r then record i { address_ipv6 = info.ip } else i,
    )
    else (
      set_hint id (record (hint_of id p) { ipv4 = w.parse_addr info.ip; gateway = info.gateway }) p,
      if is_open (λ j. j.address) r then record i { address = info.ip } else i,
    )

-- initialIP, the k-th call of udhcpc for this request; its argument v6 is not read
unfoldable pub initial_ip :
    World
    → DhcpNetworkOptions
    → CreateEndpointRequest
    → (hostname mac : Text) → ℕ
    → Bool
    → Plugin × EndpointInterface
    → (Plugin × EndpointInterface) × Option Error
unfolding take_lease
initial_ip w opts r hostname mac k v6 s = elim (w.get_ip k (lease_options hostname mac opts.ipv6)) [
  | err e ↦ (s, some e)
  | ok info ↦ (take_lease w opts r info s, none)
]

-- the end of setup: a second call of initialIP on a network with IPv6
abbrev pub then_v6 :
    World
    → DhcpNetworkOptions
    → CreateEndpointRequest
    → (hostname mac : Text) → (Plugin × EndpointInterface) × Option Error
    → (Plugin × EndpointInterface) × Option Error
then_v6 w opts r hostname mac (s, some e) = (s, some e)
then_v6 w opts r hostname mac (s, none) =
    if opts.ipv6 then initial_ip w opts r hostname mac 1 true s else (s, none)

-- setup
unfoldable pub setup :
    World
    → DhcpNetworkOptions
    → CreateEndpointRequest
    → (ctr_name mac : Text) → Plugin × EndpointInterface
    → (Plugin × EndpointInterface) × Option Error
unfolding initial_ip
setup w opts r ctr_name mac (p, i) = elim (w.link_by_name ctr_name) [
  | err e ↦ ((p, i), some e)
  | ok kind ↦
      let hostname = (hint_of r.endpoint_id p).hostname in
      then_v6 w opts r hostname mac (initial_ip w opts r hostname mac 0 false (p, i))
]

abbrev pub call_link_add : Text → Text → Plugin → Plugin
call_link_add id mac p = record p {
  calls = p.calls ++ link_add (veth_pair_names id).0 (veth_pair_names id).1 mac ∷ [];
}

abbrev pub call_link_del : Text → Plugin → Plugin
call_link_del id p = record p { calls = p.calls ++ link_del (veth_pair_names id).0 ∷ [] }

-- a response without any address has no interface
abbrev pub or_nil : EndpointInterface → Option EndpointInterface
or_nil i =
    if is_empty i.address && (is_empty i.address_ipv6 && is_empty i.mac_address)
    then none
    else some i

-- what follows setup: the link goes if it failed
abbrev pub after_setup :
    Text
    → (Plugin × EndpointInterface) × Option Error
    → Plugin × Result Error (Option EndpointInterface)
after_setup id ((p, i), some e) = (call_link_del id p, err e)
after_setup id ((p, i), none) = (p, ok (or_nil i))

abbrev pub shown : Text → EndpointInterface
shown mac = record { address = []; address_ipv6 = []; mac_address = mac }

-- what follows the choice of the MAC address
unfoldable pub make_link :
    World
    → DhcpNetworkOptions
    → CreateEndpointRequest
    → Plugin × Result Macgen.Error (Text × Text)
    → Plugin × Result Error (Option EndpointInterface)
unfolding setup
make_link w opts r (p, err e) = (p, err (wrapped (text "MAC generation failed") (generation e)))
make_link w opts r (p, ok (mac, response_mac)) = elim w.link_add_error [
  | some e ↦ (p, err e)
  | none ↦ after_setup r.endpoint_id (
      setup w opts r (veth_pair_names r.endpoint_id).1 mac
        (call_link_add r.endpoint_id mac p, shown response_mac))
]

-- what follows the options of the network
unfoldable pub with_options :
    World
    → CreateEndpointRequest
    → Plugin × Result Error DhcpNetworkOptions
    → Plugin × Result Error (Option EndpointInterface)
unfolding make_link choose_mac identify
with_options w r (p, err e) = (p, err e)
with_options w r (p, ok opts) = elim (w.link_by_name opts.bridge) [
  | err e ↦ (p, err e)
  | ok kind ↦
      let (q, who) = identify w r p in
      make_link w opts r (choose_mac opts r who (note_identity r.endpoint_id who q))
]

-- CreateEndpoint; the response's interface is what it returns
unfoldable pub create_endpoint :
    World → CreateEndpointRequest → Plugin → Plugin × Result Error (Option EndpointInterface)
unfolding with_options net_options
create_endpoint w r p = with_options w r (net_options w r.network_id p)
