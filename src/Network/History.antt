-- ===== src/Network/History.antt =====
-- The plugin over time: any sequence of Docker's events (pkg/plugin/plugin.go) and of requests
-- (pkg/plugin/network.go).
mod Examples
use docker_net_dhcp.Shared.{
  ℕ, List, [], ◌∷◌, not, ◌&&◌, ◌||◌, if◌then◌else◌, if-both, ◌≡◌, refl, ◌∙◌, sym, inl, inr,
  Option-cases, Bool-cases, some, none,
}
use docker_net_dhcp.Shared.Text.{Text, is_empty, str_eq}
use docker_net_dhcp.Shared.Result.{Result, ok, err, Result-cases}
use docker_net_dhcp.Cache.Disk.{Outcome}
use docker_net_dhcp.Cache.Ops.{get_endpoint, get_all}
use docker_net_dhcp.Driver.{DhcpNetworkOptions}
use docker_net_dhcp.Pending.{Pending, queue_of, prune_expired_pending}
use docker_net_dhcp.Pending.History
use docker_net_dhcp.Pending.Compose.{IsUnique}
use docker_net_dhcp.Plugin.{Plugin, JoinHint}
use docker_net_dhcp.Plugin.Events.{Docker, Message, Container, on_message}
use docker_net_dhcp.Plugin.Events.Steps.{on_message_steps, Reach-join}
use docker_net_dhcp.Network.{
  World, CreateNetworkRequest, EndpointRequest, create_network, remove_network, leave,
  remove_endpoint, remember, checked_options, net_options,
}
use docker_net_dhcp.Network.Identify.{CreateEndpointRequest}
use docker_net_dhcp.Network.Create.{create_endpoint, refine_hint, set_hint, hint_of}
use docker_net_dhcp.Network.Create.Queued.{create_endpoint_steps}
use docker_net_dhcp.Network.Create.Restart.{
  pending-net_options, pending-drop_manager, pending-remove_endpoint,
}
use docker_net_dhcp.Network.Join.{Routes, JoinRequest, join, join_with}
use docker_net_dhcp.Errors.{Error}
use docker_net_dhcp.Shared.Dict
use docker_net_dhcp.Cache.State.{EndpointState, NetworkState, or_made}
use docker_net_dhcp.Network.Settle.{Later, settle}
use docker_net_dhcp.Network.Recover.{
  Host, is_gone, resume_dhcp, recover_endpoints, recover_networks, recover,
}

-- A step of the plugin. While CreateEndpoint sleeps, others may take steps on the pending containers.
pub data Step (p : Plugin) : Plugin → Type 0 where
  handles :
      (docker : Docker) (now : ℕ) (os : Outcome) (msg : Message)
      → Step p (on_message docker now os msg p)
  scavenges :
      (now max_age : ℕ)
      → Step p (record p { pending = prune_expired_pending now max_age p.pending })
  creates_network : (w : World) (r : CreateNetworkRequest) → Step p (create_network w r p).0
  removes_network : (w : World) (id : Text) → Step p (remove_network w id p)
  creates_endpoint :
      (w : World) (r : CreateEndpointRequest)
      → ((k : ℕ) (q : Plugin) → History.Reach q.pending (w.during_sleep k q).pending)
      → Step p (create_endpoint w r p).0
  leaves : (w : World) (l : EndpointRequest) → Step p (leave w l p)
  removes_endpoint : (w : World) (l : EndpointRequest) → Step p (remove_endpoint w l p)
  joins : (w : World) (routes : Routes) (r : JoinRequest) → Step p (join w routes r p).0
  refines : (id seed_name : Text) (ctr : Container) → Step p (refine_hint id seed_name ctr p)
  recovers : (h : Host) → Step p (recover h p)
  settles :
      (l : Later) (r : JoinRequest) (opts : DhcpNetworkOptions) (hint : JoinHint)
      → Step p (settle l r opts hint p)

pub data Reach (p : Plugin) : Plugin → Type 0 where
  here : Reach p p
  next : {q r : Plugin} → Reach p q → Step q r → Reach p r

remember_steps :
    (w : World) (l : EndpointRequest) (p : Plugin)
    → History.Reach p.pending (remember w l p).pending
unfolding remember
remember_steps w l p = elim (Option-cases (get_endpoint l.network_id l.endpoint_id p.cache)) [
  | inl h ↦ rw (h, remember) History.here
  | inr (ep, h) ↦ elim (Bool-cases (is_empty ep.seed_name)) [
    | inl e ↦ rw (h, remember, e) History.here
    | inr e ↦
        rw (h, remember, e)
          (History.next (History.next History.here (History.pushes w.now l.network_id _ _ _))
            (History.upserts w.now l.network_id _ _))
  ]
]

pending-create_network :
    (w : World) (r : CreateNetworkRequest) (p : Plugin)
    → (create_network w r p).0.pending ≡ p.pending
unfolding create_network
pending-create_network w r p = elim (Result-cases (checked_options w r)) [
  | inl (e, h) ↦ rw (h, create_network) refl
  | inr (opts, h) ↦ rw (h, create_network) refl
]

pending-join :
    (w : World) (routes : Routes) (r : JoinRequest) (p : Plugin)
    → (join w routes r p).0.pending ≡ p.pending
unfolding join join_with
pending-join w routes r p =
    joined (net_options w r.network_id p) ∙ pending-net_options w r.network_id p
  where
    joined :
        (s : Plugin × Result Error DhcpNetworkOptions)
        → (join_with w routes r s).0.pending ≡ s.0.pending
    joined (q, err e) = refl
    joined (q, ok opts) = elim (Option-cases (Dict.get r.endpoint_id q.join_hints)) [
      | inl h ↦ rw (h, join_with) refl
      | inr (hint, h) ↦ rw (h, join_with) refl
    ]

pending-refine_hint :
    (id seed_name : Text) (ctr : Container) (p : Plugin)
    → (refine_hint id seed_name ctr p).pending ≡ p.pending
unfolding refine_hint set_hint hint_of
pending-refine_hint id seed_name ctr p =
    if-both (λ (q : Plugin). q.pending ≡ p.pending)
      (is_empty (hint_of id p).hostname || str_eq (hint_of id p).hostname seed_name) _ _ refl refl

pending-resume_dhcp :
    (h : Host) (ep : EndpointState) (opts : DhcpNetworkOptions) (n : Text) (p : Plugin)
    → (resume_dhcp h ep opts n p).pending ≡ p.pending
unfolding resume_dhcp
pending-resume_dhcp h ep opts n p =
    if-both (λ (q : Plugin). q.pending ≡ p.pending) (not (is_gone h ep) && h.starts ep.id) _ _ refl
      refl

pending-recover_endpoints :
    (h : Host) (opts : DhcpNetworkOptions) (n : Text) (eps : List EndpointState) (p : Plugin)
    → (recover_endpoints h opts n eps p).pending ≡ p.pending
unfolding recover_endpoints
pending-recover_endpoints h opts n [] p = refl
pending-recover_endpoints h opts n (ep ∷ eps) p =
    pending-recover_endpoints h opts n eps (resume_dhcp h ep opts n p)
    ∙ pending-resume_dhcp h ep opts n p

pending-recover_networks :
    (h : Host) (nets : List NetworkState) (p : Plugin)
    → (recover_networks h nets p).pending ≡ p.pending
unfolding recover_networks
pending-recover_networks h [] p = refl
pending-recover_networks h (n ∷ nets) p =
    pending-recover_networks h nets _
    ∙ pending-recover_endpoints h n.options n.id (Dict.values (or_made n.endpoints)) p

same_pending : (p q : Pending) → q ≡ p → History.Reach p q
same_pending p q h = rw h History.here

Step-pending : {p q : Plugin} → Step p q → History.Reach p.pending q.pending
unfolding leave remove_network settle recover
Step-pending {p} (handles docker now os msg) = on_message_steps docker now os msg p
Step-pending {p} (scavenges now max_age) = History.next History.here (History.prunes now max_age)
Step-pending {p} (creates_network w r) = same_pending _ _ (pending-create_network w r p)
Step-pending {p} (removes_network w id) = History.here
Step-pending {p} (creates_endpoint w r others) = create_endpoint_steps w r others p
Step-pending {p} (leaves w l) =
    Reach-join (remember_steps w l p)
      (same_pending _ _ (pending-drop_manager l.endpoint_id (remember w l p)))
Step-pending {p} (removes_endpoint w l) = same_pending _ _ (pending-remove_endpoint w l p)
Step-pending {p} (joins w routes r) = same_pending _ _ (pending-join w routes r p)
Step-pending {p} (refines id seed_name ctr) =
    same_pending _ _ (pending-refine_hint id seed_name ctr p)
Step-pending {p} (recovers h) = same_pending _ _ (pending-recover_networks h (get_all p.cache) p)
Step-pending {p} (settles l r opts hint) = History.here

-- Whatever events and requests the plugin serves, in whatever order and with whatever failures, what
-- has become of the pending containers is the result of a sequence of pushes, pops, writes of
-- metadata and prunings.
pub Reach-pending : {p q : Plugin} → Reach p q → History.Reach p.pending q.pending
Reach-pending here = History.here
Reach-pending (next r s) = Reach-join (Reach-pending r) (Step-pending s)

-- In every plugin that is reached by events and requests from one with no pending containers, no
-- container name stands twice in the queue of a network.
pub queues-IsUnique :
    {p q : Plugin}
    → p.pending ≡ History.start
    → Reach p q
    → (n : Text) → IsUnique (queue_of n q.pending)
queues-IsUnique {p} {q} h r = History.Reach-IsWellFormed (rw h at (Reach-pending r))
