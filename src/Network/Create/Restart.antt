-- ===== src/Network/Create/Restart.antt =====
-- A container's restart, as pkg/plugin/network.go serves it: Leave, DeleteEndpoint and then
-- CreateEndpoint for a new endpoint of the same container.
use docker_net_dhcp.Shared.{
  ℕ, suc, [], false, some, if◌then◌else◌, ◌≡◌, ◌≢◌, refl, ◌∙◌, sym, ap, inl, inr, arith, keep,
  Option-cases, List-cases,
}
use docker_net_dhcp.Shared.Text.{Text, is_empty, str_eq_refl}
use docker_net_dhcp.Shared.Dict
use docker_net_dhcp.Shared.Result.{ok, Result-cases}
use docker_net_dhcp.Driver.{DhcpNetworkOptions}
use docker_net_dhcp.Macgen.{generate}
use docker_net_dhcp.Macgen.Derive.{is_empty-eq-false}
use docker_net_dhcp.Cache.State.{EndpointState}
use docker_net_dhcp.Cache.Ops.{get_network, get_endpoint}
use docker_net_dhcp.Pending.{
  Pending, queue_of, push_pending_container, pop_pending_container, upsert_pending_meta,
  lookup_pending_meta,
}
use docker_net_dhcp.Pending.Meta.{lookup-upsert}
use docker_net_dhcp.Pending.Queue.{queue_of-push, queue_of-pop}
use docker_net_dhcp.Plugin.{Plugin}
use docker_net_dhcp.Plugin.Events.Queues.{pop-upsert}
use docker_net_dhcp.Network.{
  World, EndpointRequest, net_options, mac_format_from_opts, remember, drop_manager, drop_link,
  leave, remove_endpoint, veth_pair_names,
}
use docker_net_dhcp.Network.Identify.{
  CreateEndpointRequest, EndpointInterface, Identity, unknown, requested_mac, identify, proactive,
  wait_pending, enrich, or_wait, or_fallback,
}
use docker_net_dhcp.Network.Create.{create_endpoint, mac_seed_of}
use docker_net_dhcp.Network.Create.Lease.{Works}
use docker_net_dhcp.Network.Create.Mac.{create_endpoint-generated, identified, mac_seed-order}

pub pending-drop_manager : (id : Text) (p : Plugin) → (drop_manager id p).pending ≡ p.pending
unfolding drop_manager
pending-drop_manager id p = elim (Option-cases (Dict.get id p.persistent_dhcp)) [
  | inl h ↦ rw (h, drop_manager) refl
  | inr (m, h) ↦ rw (h, drop_manager) refl
]

pending-drop_link :
    (w : World) (host : Text) (p : Plugin) → (drop_link w host p).pending ≡ p.pending
unfolding drop_link
pending-drop_link w host p = elim (Result-cases (w.link_by_name host)) [
  | inl (e, h) ↦ rw (h, drop_link) refl
  | inr (kind, h) ↦ rw (h, drop_link) refl
]

pub pending-remove_endpoint :
    (w : World) (l : EndpointRequest) (p : Plugin) → (remove_endpoint w l p).pending ≡ p.pending
unfolding remove_endpoint
pending-remove_endpoint w l p =
    pending-drop_manager l.endpoint_id _ ∙ pending-drop_link w (veth_pair_names l.endpoint_id).0 p

pub pending-net_options :
    (w : World) (id : Text) (p : Plugin) → (net_options w id p).0.pending ≡ p.pending
unfolding net_options
pending-net_options w id p = elim (Option-cases (get_network id p.cache)) [
  | inr (state, h) ↦ rw (h, net_options) refl
  | inl h ↦ elim (Option-cases (w.network_inspect id)) [
    | inl e ↦ rw (h, e, net_options) refl
    | inr (n, e) ↦ rw (h, e, net_options) refl
  ]
]

-- a backward entry for the container, in the queue and in the metadata
abbrev noted : ℕ → Text → Text → Text → Pending → Pending
noted now n name hostname p =
    upsert_pending_meta now n name hostname (push_pending_container now n name hostname false p)

pending-leave :
    (w : World) (l : EndpointRequest) (p : Plugin) (ep : EndpointState)
    → get_endpoint l.network_id l.endpoint_id p.cache ≡ some ep
    → ep.seed_name ≢ []
    → (leave w l p).pending ≡ noted w.now l.network_id ep.seed_name ep.hostname p.pending
unfolding leave remember
pending-leave w l p ep h named =
    pending-drop_manager l.endpoint_id (remember w l p)
    ∙ rw (h, remember, is_empty-eq-false ep.seed_name named) refl

pop-noted :
    (now : ℕ) (n name hostname : Text) (p : Pending)
    → queue_of n p ≡ []
    → (pop_pending_container n (noted now n name hostname p)).1 ≡ some (name, hostname)
unfolding keep
pop-noted now n name hostname p h =
    pop-upsert now n n name hostname (push_pending_container now n name hostname false p)
    ∙ ((queue_of-pop n (push_pending_container now n name hostname false p) n).0
        ∙ rw (queue_of-push, str_eq_refl, h) refl)

lookup-pop :
    (n m name : Text) (p : Pending)
    → lookup_pending_meta m name (pop_pending_container n p).0 ≡ lookup_pending_meta m name p
unfolding pop_pending_container lookup_pending_meta
lookup-pop n m name p = elim (List-cases (queue_of n p)) [
  | inl h ↦ rw (h, pop_pending_container) refl
  | inr (pc, rest, h) ↦ rw (h, pop_pending_container) refl
]

enrich_known :
    (n : Text) (p : Plugin) (who : Identity)
    → lookup_pending_meta n who.seed_name p.pending ≡ some who.hostname
    → enrich n p who ≡ who
unfolding enrich
enrich_known n p who h = ground (arith, h)

proactive_none :
    (r : CreateEndpointRequest) (p : Plugin) → requested_mac r ≡ [] → proactive r p ≡ unknown
unfolding proactive
proactive_none r p h = rw h refl

wait_pending_first :
    (w : World) (n : Text) (left k : ℕ) (q : Plugin) (name hostname : Text)
    → (pop_pending_container n q.pending).1 ≡ some (name, hostname)
    → wait_pending w n (suc left) k q ≡ (
      record q { pending = (pop_pending_container n q.pending).0 },
      record { seed_name = name; hostname = hostname },
    )
unfolding wait_pending
wait_pending_first w n left k q name hostname h = rw (h, wait_pending) refl

lookup-noted :
    (now : ℕ) (n name hostname : Text) (pend : Pending)
    → lookup_pending_meta n name (noted now n name hostname pend) ≡ some hostname
lookup-noted now n name hostname pend =
    (lookup-upsert now n name hostname (push_pending_container now n name hostname false pend) n
      name).0
    ∙ rw (str_eq_refl n, str_eq_refl name) refl

or_fallback_known :
    (w : World) (r : CreateEndpointRequest) (p : Plugin) (who : Identity)
    → who.seed_name ≢ []
    → or_fallback w r p who ≡ who
or_fallback_known w r p who named = ground (arith, is_empty-eq-false who.seed_name named)

-- a container that waits in the queue is the one that the next request is for
identify-popped :
    (w : World) (r : CreateEndpointRequest) (name hostname : Text) (q : Plugin)
    → (pop_pending_container r.network_id q.pending).1 ≡ some (name, hostname)
    → lookup_pending_meta r.network_id name q.pending ≡ some hostname
    → name ≢ []
    → requested_mac r ≡ []
    → (identify w r q).1 ≡ record { seed_name = name; hostname = hostname }
unfolding identify
identify-popped w r name hostname q popped known named none_asked =
    let n = r.network_id in
    let who : Identity = record { seed_name = name; hostname = hostname } in
    let q' : Plugin = record q { pending = (pop_pending_container n q.pending).0 } in
    ap (λ (s : Plugin × Identity). enrich n s.0 (or_fallback w r s.0 s.1))
      (ap (or_wait w r q) (proactive_none r q none_asked)
        ∙ wait_pending_first w n 14 0 q name hostname popped)
    ∙ (ap (enrich n q') (or_fallback_known w r q' who named)
        ∙ enrich_known n q' who (lookup-pop n n name q.pending ∙ known))

identify-noted :
    (w : World) (r : CreateEndpointRequest) (now : ℕ) (name hostname : Text) (pend : Pending)
    (q : Plugin)
    → q.pending ≡ noted now r.network_id name hostname pend
    → queue_of r.network_id pend ≡ []
    → name ≢ []
    → requested_mac r ≡ []
    → (identify w r q).1 ≡ record { seed_name = name; hostname = hostname }
identify-noted w r now name hostname pend q waiting h =
    identify-popped w r name hostname q
      (rw waiting (pop-noted now r.network_id name hostname pend h))
      (rw waiting (lookup-noted now r.network_id name hostname pend))

mac_seed_known :
    (id name hostname : Text) (who : Identity)
    → who ≡ record { seed_name = name; hostname = hostname }
    → name ≢ []
    → mac_seed_of id who ≡ (if is_empty hostname then name else hostname)
mac_seed_known id name hostname who h named =
    ap (mac_seed_of id) h ∙ rw (is_empty-eq-false name named) refl

-- what Docker sends for an endpoint whose container stops: Leave, then DeleteEndpoint
abbrev stopped : World → World → EndpointRequest → Plugin → Plugin
stopped w0 w1 l p = remove_endpoint w1 l (leave w0 l p)

-- Restart: Leave and DeleteEndpoint for an endpoint whose container the cache knows, on a network
-- with no pending container, then CreateEndpoint for an endpoint with another id and no MAC address
-- asked for. If the kernel and the DHCP server serve it, the new endpoint gets the MAC address
-- derived from the hostname that the cache had for the container, or from its name if it had none.
pub restart_keeps_mac :
    (w0 w1 w : World) (r : CreateEndpointRequest) (old_id : Text) (p : Plugin) (ep : EndpointState)
    (opts : DhcpNetworkOptions)
    → get_endpoint r.network_id old_id p.cache ≡ some ep
    → ep.seed_name ≢ []
    → queue_of r.network_id p.pending ≡ []
    → Works w
    → (net_options w r.network_id
        (stopped w0 w1 (record { network_id = r.network_id; endpoint_id = old_id }) p)).1
      ≡ ok opts
    → requested_mac r ≡ []
    → r.endpoint_id ≢ []
    → (j : EndpointInterface) × ((create_endpoint w r
          (stopped w0 w1 (record { network_id = r.network_id; endpoint_id = old_id }) p)).1
        ≡ ok (some j))
      × (generate (record {
        seed = if is_empty ep.hostname then ep.seed_name else ep.hostname;
        format = mac_format_from_opts opts;
      })
          ≡ ok j.mac_address)
restart_keeps_mac w0 w1 w r old_id p ep opts found named idle works known none_asked h =
    let l : EndpointRequest = record { network_id = r.network_id; endpoint_id = old_id } in
    let q = stopped w0 w1 l p in
    let waiting : (net_options w r.network_id q).0.pending
        ≡ noted w0.now r.network_id ep.seed_name ep.hostname p.pending =
      pending-net_options w r.network_id q
      ∙ (pending-remove_endpoint w1 l (leave w0 l p) ∙ pending-leave w0 l p ep found named) in
    let who =
      identify-noted w r w0.now ep.seed_name ep.hostname p.pending (net_options w r.network_id q).0
        waiting idle named none_asked in
    let (j, made, good) = create_endpoint-generated w r q opts works known none_asked h in
    let seed =
      sym (mac_seed-order r.endpoint_id (identified w r q))
      ∙ mac_seed_known r.endpoint_id ep.seed_name ep.hostname _ who named in
    (j, made, (rw seed at good))
