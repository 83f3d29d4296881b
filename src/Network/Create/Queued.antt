-- ===== src/Network/Create/Queued.antt =====
-- What CreateEndpoint of pkg/plugin/network.go does to the pending containers: it pops while it waits,
-- and nothing else.
use docker_net_dhcp.Shared.{
  ℕ, zero, suc, ◌+◌, Bool, true, false, Option, none, some, ◌≡◌, refl, ◌∙◌, inl, inr, if-both,
  Option-cases, Bool-cases,
}
use docker_net_dhcp.Shared.Text.{Text, is_empty}
use docker_net_dhcp.Shared.Result.{Result, ok, err, Result-cases}
use docker_net_dhcp.Driver.{DhcpNetworkOptions}
use docker_net_dhcp.Macgen
use docker_net_dhcp.Errors.{Error}
use docker_net_dhcp.Pending.{Pending, pop_pending_container}
use docker_net_dhcp.Pending.History.{Reach, here, next, pops}
use docker_net_dhcp.Plugin.{Plugin}
use docker_net_dhcp.Plugin.Events.Steps.{Reach-join}
use docker_net_dhcp.Udhcpc.{Info}
use docker_net_dhcp.Network.{
  World, net_options, mac_format_from_opts, veth_pair_names, lease_options,
}
use docker_net_dhcp.Network.Identify.{
  CreateEndpointRequest, EndpointInterface, Identity, requested_mac, identify, proactive,
  wait_pending,
}
use docker_net_dhcp.Network.Create.{
  set_hint, mac_seed_of, note_identity, choose_mac, take_lease, initial_ip, then_v6, setup,
  make_link, after_setup, call_link_add, shown, with_options, create_endpoint,
}
use docker_net_dhcp.Network.Create.Restart.{pending-net_options}

Reach-from : (p q r : Pending) → q ≡ p → Reach q r → Reach p r
Reach-from p q r h a = rw h at a

module _ (w : World) (opts : DhcpNetworkOptions) (r : CreateEndpointRequest) where
  pending-take_lease :
      (info : Info) (s : Plugin × EndpointInterface)
      → (take_lease w opts r info s).0.pending ≡ s.0.pending
  unfolding take_lease set_hint
  pending-take_lease info (p, i) =
      if-both {A = Plugin × EndpointInterface} (λ t. t.0.pending ≡ p.pending) opts.ipv6 _ _ refl
        refl

  pending-initial_ip :
      (hostname mac : Text) (k : ℕ) (v6 : Bool) (s : Plugin × EndpointInterface)
      → (initial_ip w opts r hostname mac k v6 s).0.0.pending ≡ s.0.pending
  unfolding initial_ip
  pending-initial_ip hostname mac k v6 s =
      elim (Result-cases (w.get_ip k (lease_options hostname mac opts.ipv6))) [
        | inl (e, h) ↦ rw (h, initial_ip) refl
        | inr (info, h) ↦ rw (h, initial_ip) (pending-take_lease info s)
      ]

  pending-then_v6 :
      (hostname mac : Text) (t : (Plugin × EndpointInterface) × Option Error)
      → (then_v6 w opts r hostname mac t).0.0.pending ≡ t.0.0.pending
  pending-then_v6 hostname mac (s, some e) = refl
  pending-then_v6 hostname mac (s, none) =
      if-both {A = (Plugin × EndpointInterface) × Option Error} (λ t. t.0.0.pending ≡ s.0.pending)
        opts.ipv6 _ _ (pending-initial_ip hostname mac 1 true s) refl

  pending-setup :
      (ctr_name mac : Text) (s : Plugin × EndpointInterface)
      → (setup w opts r ctr_name mac s).0.0.pending ≡ s.0.pending
  unfolding setup
  pending-setup ctr_name mac (p, i) = elim (Result-cases (w.link_by_name ctr_name)) [
    | inl (e, h) ↦ rw (h, setup) refl
    | inr (kind, h) ↦
        rw (h, setup)
          (pending-then_v6 _ mac (initial_ip w opts r _ mac 0 false (p, i))
            ∙ pending-initial_ip _ mac 0 false (p, i))
  ]

  pending-after_setup :
      (t : (Plugin × EndpointInterface) × Option Error)
      → (after_setup r.endpoint_id t).0.pending ≡ t.0.0.pending
  pending-after_setup ((q, i), some e) = refl
  pending-after_setup ((q, i), none) = refl

  pending-make_link :
      (m : Plugin × Result Macgen.Error (Text × Text))
      → (make_link w opts r m).0.pending ≡ m.0.pending
  unfolding make_link
  pending-make_link (p, err e) = refl
  pending-make_link (p, ok (mac, response_mac)) = elim (Option-cases w.link_add_error) [
    | inr (e, h) ↦ rw (h, make_link) refl
    | inl h ↦
        rw (h, make_link)
          (pending-after_setup (
              setup w opts r (veth_pair_names r.endpoint_id).1 mac
                (call_link_add r.endpoint_id mac p, shown response_mac))
            ∙ pending-setup _ mac (call_link_add r.endpoint_id mac p, shown response_mac))
  ]

  pending-choose_mac :
      (who : Identity) (p : Plugin) → (choose_mac opts r who p).0.pending ≡ p.pending
  unfolding choose_mac set_hint
  pending-choose_mac who p = elim (Bool-cases (is_empty (requested_mac r))) [
    | inr h ↦ rw (h, choose_mac) refl
    | inl h ↦
        elim (Result-cases (
          Macgen.generate (record {
            seed = mac_seed_of r.endpoint_id who;
            format = mac_format_from_opts opts;
          }))) [
            | inl (e, g) ↦ rw (h, g, choose_mac) refl
            | inr (mac, g) ↦ rw (h, g, choose_mac) refl
          ]
  ]

module _ (w : World) (r : CreateEndpointRequest)
    (others : (k : ℕ) (p : Plugin) → Reach p.pending (w.during_sleep k p).pending) where
  wait_pending_steps :
      (left k : ℕ) (p : Plugin) → Reach p.pending (wait_pending w r.network_id left k p).0.pending
  unfolding wait_pending
  wait_pending_steps zero k p = here
  wait_pending_steps (suc left) k p =
      elim (Option-cases (pop_pending_container r.network_id p.pending).1) [
        | inl h ↦
            rw (h, wait_pending)
              (Reach-join (next here (pops r.network_id))
                (Reach-join (others k _) (wait_pending_steps left (k + 1) _)))
        | inr ((name, hostname), h) ↦ rw (h, wait_pending) (next here (pops r.network_id))
      ]

  identify_steps : (p : Plugin) → Reach p.pending (identify w r p).0.pending
  unfolding identify
  identify_steps p =
      if-both {A = Plugin × Identity} (λ s. Reach p.pending s.0.pending)
        (is_empty (proactive r p).seed_name) _ _ (wait_pending_steps 15 0 p) here

  with_options_steps :
      (q : Plugin) (o : Result Error DhcpNetworkOptions)
      → Reach q.pending (with_options w r (q, o)).0.pending
  unfolding with_options set_hint
  with_options_steps q (err e) = here
  with_options_steps q (ok opts) = elim (Result-cases (w.link_by_name opts.bridge)) [
    | inl (e, g) ↦ rw (g, with_options) here
    | inr (kind, g) ↦
        let s = identify w r q in
        let t = note_identity r.endpoint_id s.1 s.0 in
        let kept =
          pending-make_link w opts r (choose_mac opts r s.1 t)
          ∙ pending-choose_mac w opts r s.1 t in
        rw (g, with_options) (rw kept (identify_steps q))
  ]

  pub create_endpoint_steps : (p : Plugin) → Reach p.pending (create_endpoint w r p).0.pending
  unfolding create_endpoint
  create_endpoint_steps p =
      Reach-from _ _ _ (pending-net_options w r.network_id p)
        (with_options_steps (net_options w r.network_id p).0 (net_options w r.network_id p).1)
