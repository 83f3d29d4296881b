-- ===== src/Network/Create/Rollback.antt =====
-- CreateEndpoint of pkg/plugin/network.go leaves no link behind when it fails.
use docker_net_dhcp.Shared.{
  ℕ, zero, suc, ◌+◌, Option, ◌≡◌, refl, ◌∙◌, inl, inr, if-both, Option-cases, Bool-cases,
}
use docker_net_dhcp.Shared.Text.{Text, is_empty}
use docker_net_dhcp.Shared.Result.{Result, ok, err, Result-cases}
use docker_net_dhcp.Driver.{DhcpNetworkOptions}
use docker_net_dhcp.Macgen
use docker_net_dhcp.Errors.{Error}
use docker_net_dhcp.Cache.Ops.{get_network}
use docker_net_dhcp.Pending.{pop_pending_container}
use docker_net_dhcp.Plugin.{Plugin}
use docker_net_dhcp.Network.{World, mac_format_from_opts, net_options}
use docker_net_dhcp.Network.Identify.{
  CreateEndpointRequest, EndpointInterface, Identity, requested_mac, identify, proactive,
  wait_pending,
}
use docker_net_dhcp.Network.Create.{
  mac_seed_of, note_identity, set_hint, choose_mac, make_link, with_options, create_endpoint,
}
use docker_net_dhcp.Network.Create.Lease.{Balanced, make_link-Balanced}

module _ (w : World) (r : CreateEndpointRequest) where
  calls-net_options : (p : Plugin) → (net_options w r.network_id p).0.calls ≡ p.calls
  unfolding net_options
  calls-net_options p = elim (Option-cases (get_network r.network_id p.cache)) [
    | inr (state, h) ↦ rw (h, net_options) refl
    | inl h ↦ elim (Option-cases (w.network_inspect r.network_id)) [
      | inl e ↦ rw (h, e, net_options) refl
      | inr (n, e) ↦ rw (h, e, net_options) refl
    ]
  ]

  calls-choose_mac :
      (opts : DhcpNetworkOptions) (who : Identity) (p : Plugin)
      → (choose_mac opts r who p).0.calls ≡ p.calls
  unfolding choose_mac set_hint
  calls-choose_mac opts who p = elim (Bool-cases (is_empty (requested_mac r))) [
    | inr h ↦ rw (h, choose_mac) refl
    | inl h ↦
        elim (Result-cases (
          Macgen.generate (record {
            seed = mac_seed_of r.endpoint_id who;
            format = mac_format_from_opts opts;
          }))) [
            | inl (e, g) ↦ rw (h, g, choose_mac) refl
            | inr (mac, g) ↦ rw (h, g, choose_mac) refl
          ]
  ]

  Balanced-from :
      (p q : Plugin) (s : Plugin × Result Error (Option EndpointInterface))
      → q.calls ≡ p.calls
      → Balanced r q s
      → Balanced r p s
  Balanced-from p q (t, err e) h (inl b) = inl (b ∙ h)
  Balanced-from p q (t, err e) h (inr (mac, b)) = inr (mac, (rw h at b))
  Balanced-from p q (t, ok i) h (mac, b) = (mac, (rw h at b))

  Balanced-make_link :
      (opts : DhcpNetworkOptions) (p : Plugin) (m : Plugin × Result Macgen.Error (Text × Text))
      → m.0.calls ≡ p.calls
      → Balanced r p (make_link w opts r m)
  Balanced-make_link opts p (q, chosen) h =
      Balanced-from p q (make_link w opts r (q, chosen)) h (make_link-Balanced w opts r q chosen)

  -- the other goroutines' calls are not counted
  module _ (others : (k : ℕ) (p : Plugin) → (w.during_sleep k p).calls ≡ p.calls) where
    calls-wait_pending :
        (left k : ℕ) (p : Plugin) → (wait_pending w r.network_id left k p).0.calls ≡ p.calls
    unfolding wait_pending
    calls-wait_pending zero k p = refl
    calls-wait_pending (suc left) k p =
        elim (Option-cases (pop_pending_container r.network_id p.pending).1) [
          | inl h ↦
              rw (h, wait_pending)
                (calls-wait_pending left (k + 1) (w.during_sleep k _) ∙ others k _)
          | inr ((name, hostname), h) ↦ rw (h, wait_pending) refl
        ]

    calls-identify : (p : Plugin) → (identify w r p).0.calls ≡ p.calls
    unfolding identify
    calls-identify p =
        if-both {A = Plugin × Identity} (λ s. s.0.calls ≡ p.calls)
          (is_empty (proactive r p).seed_name) _ _ (calls-wait_pending 15 0 p) refl

    with_options-Balanced :
        (p q : Plugin) (o : Result Error DhcpNetworkOptions)
        → q.calls ≡ p.calls
        → Balanced r p (with_options w r (q, o))
    unfolding with_options set_hint
    with_options-Balanced p q (err e) h = inl h
    with_options-Balanced p q (ok opts) h = elim (Result-cases (w.link_by_name opts.bridge)) [
      | inl (e, g) ↦ rw (g, with_options) (inl h)
      | inr (kind, g) ↦
          let s = identify w r q in
          rw (g, with_options)
            (Balanced-make_link opts p (choose_mac opts r s.1 (note_identity r.endpoint_id s.1 s.0))
              (calls-choose_mac opts s.1 _ ∙ (calls-identify q ∙ h)))
    ]

    -- However CreateEndpoint ends, and on whichever of its steps: if it returns an error, it has
    -- added no link or has deleted the one that it added; if it returns a response, it has added one
    -- link, which is still there. (The calls of other goroutines while it sleeps are left out.)
    pub create_endpoint-Balanced : (p : Plugin) → Balanced r p (create_endpoint w r p)
    unfolding create_endpoint
    create_endpoint-Balanced p =
        with_options-Balanced p (net_options w r.network_id p).0 (net_options w r.network_id p).1
          (calls-net_options p)
