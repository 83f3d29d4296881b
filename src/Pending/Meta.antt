-- ===== src/Pending/Meta.antt =====
-- The metadata map of pkg/plugin/plugin.go: upsertPendingMeta and lookupPendingMeta, beside the queue.
use docker_net_dhcp.Shared.{ℕ, false, ◌&&◌, some, if◌then◌else◌, ◌≡◌, refl, arith}
use docker_net_dhcp.Shared.Text.{Text, str_eq, str_eq_iff}
use docker_net_dhcp.Shared.Dict
use docker_net_dhcp.Shared.Dict.{Dict, get-put}
use docker_net_dhcp.Pending.{
  PendingContainer, Pending, or_nil, queue_of, upsert_pending_meta, lookup_pending_meta,
}

-- The last write for a container on a network wins; the entries of other containers and networks
-- stay, and so do all queues.
pub lookup-upsert :
    (now : ℕ) (n name hostname : Text) (p : Pending) (n' name' : Text)
    → (lookup_pending_meta n' name' (upsert_pending_meta now n name hostname p) ≡ (
        if str_eq n n' && str_eq name name' then some hostname else lookup_pending_meta n' name' p))
      × (queue_of n' (upsert_pending_meta now n name hostname p) ≡ queue_of n' p)
unfolding lookup_pending_meta upsert_pending_meta queue_of Dict.get
lookup-upsert now n name hostname p n' name' = (
  ground (
    arith,
    str_eq_iff n n',
    get-put name name' new m,
    get-put n n' (Dict.put name new m) p.pending_meta,
  ),
  refl,
)
  where
    new : PendingContainer
    new = record { name = name; hostname = hostname; created_at = now; forward = false }

    m : Dict PendingContainer
    m = or_nil (Dict.get n p.pending_meta)
