-- ===== src/Pending.antt =====
-- The pending containers of pkg/plugin/plugin.go: per network, a FIFO queue and a map of metadata by
-- container name. Each method holds the plugin's lock from its first line to its last. The clock is
-- an argument; a network without a queue has the empty queue.
pub mod Queue
pub mod Meta
pub mod Prune
pub mod Compose
pub mod History
mod Examples
use docker_net_dhcp.Shared.{
  ℕ, ◌-◌, List, [], ◌∷◌, ◌++◌, Bool, true, false, not, Option, none, some, if◌then◌else◌, ltb,
}
use docker_net_dhcp.Shared.Text.{Text, str_eq}
use docker_net_dhcp.Shared.Dict
use docker_net_dhcp.Shared.Dict.{Dict, keys}
use docker_net_dhcp.Shared.Dict.Range.{sweep}
use docker_net_dhcp.Shared.Slice.{compact}

pub record PendingContainer : Type 0 where
  pub name : Text
  pub hostname : Text
  pub created_at : ℕ
  pub forward : Bool

-- the fields `pendingQueue` and `pendingMeta` of Plugin
pub record Pending : Type 0 where
  pub pending_queue : Dict (List PendingContainer)
  pub pending_meta : Dict (Dict PendingContainer)

abbrev pub or_nil {ℓ} : {A : Type ℓ} → Option (List A) → List A
or_nil none = []
or_nil (some xs) = xs

-- p.pendingQueue[networkID]
unfoldable pub queue_of : Text → Pending → List PendingContainer
queue_of network_id p = or_nil (Dict.get network_id p.pending_queue)

-- the queue that pushPendingContainer stores: backward entries go if the new one is forward, then
-- the entry of the same name, and the new one comes last
unfoldable pub pushed : PendingContainer → List PendingContainer → List PendingContainer
pushed new queue =
    let kept = if new.forward then compact (λ pc. pc.forward) queue else queue in
    compact (λ pc. not (str_eq pc.name new.name)) kept ++ new ∷ []

-- pushPendingContainer
unfoldable pub push_pending_container : ℕ → Text → Text → Text → Bool → Pending → Pending
unfolding queue_of
push_pending_container now network_id name hostname forward p = record p {
  pending_queue =
      Dict.put network_id
        (pushed (record { name = name; hostname = hostname; created_at = now; forward = forward })
          (queue_of network_id p))
        p.pending_queue;
}

abbrev pop_front : Text → Pending → List PendingContainer → Pending × Option (Text × Text)
pop_front network_id p [] = (p, none)
pop_front network_id p (pc ∷ rest) = (
  record p { pending_queue = Dict.put network_id rest p.pending_queue },
  some (pc.name, pc.hostname),
)

-- popPendingContainer
unfoldable pub pop_pending_container : Text → Pending → Pending × Option (Text × Text)
unfolding queue_of
pop_pending_container network_id p = pop_front network_id p (queue_of network_id p)

-- upsertPendingMeta
unfoldable pub upsert_pending_meta : ℕ → Text → Text → Text → Pending → Pending
upsert_pending_meta now network_id name hostname p =
    let m = or_nil (Dict.get network_id p.pending_meta) in
    let pc : PendingContainer = record {
      name = name;
      hostname = hostname;
      created_at = now;
      forward = false;
    } in
    record p { pending_meta = Dict.put network_id (Dict.put name pc m) p.pending_meta }

-- lookupPendingMeta
unfoldable pub lookup_pending_meta : Text → Text → Pending → Option Text
lookup_pending_meta network_id name p = elim (Dict.get network_id p.pending_meta) [
  | none ↦ none
  | some m ↦ elim (Dict.get name m) [ none ↦ none | some pc ↦ some pc.hostname ]
]

-- `pc.createdAt.Before(cutoff)`, the cutoff being `maxAge` before now
abbrev pub is_stale : ℕ → ℕ → PendingContainer → Bool
is_stale now max_age pc = ltb pc.created_at (now - max_age)

-- one round of the loop of pruneExpiredPending over the queues
unfoldable pub prune_queue :
    ℕ → ℕ → Text → Dict (List PendingContainer) → Dict (List PendingContainer)
prune_queue now max_age net_id queues = elim (Dict.get net_id queues) [
  | none ↦ queues
  | some queue ↦ elim (compact (λ pc. not (is_stale now max_age pc)) queue) [
    | [] ↦ Dict.del net_id queues
    | pc ∷ rest ↦ Dict.put net_id (pc ∷ rest) queues
  ]
]

unfoldable pub prune_queues :
    ℕ → ℕ → List Text → Dict (List PendingContainer) → Dict (List PendingContainer)
unfolding prune_queue
prune_queues now max_age [] queues = queues
prune_queues now max_age (net_id ∷ ids) queues =
    prune_queues now max_age ids (prune_queue now max_age net_id queues)

-- one round of the loop over the metadata
unfoldable pub prune_meta :
    ℕ → ℕ → Text → Dict (Dict PendingContainer) → Dict (Dict PendingContainer)
prune_meta now max_age net_id metas = elim (Dict.get net_id metas) [
  | none ↦ metas
  | some m ↦ elim (sweep (λ name pc. is_stale now max_age pc) (keys m) (m, false)).0 [
    | [] ↦ Dict.del net_id metas
    | e ∷ rest ↦ Dict.put net_id (e ∷ rest) metas
  ]
]

unfoldable pub prune_metas :
    ℕ → ℕ → List Text → Dict (Dict PendingContainer) → Dict (Dict PendingContainer)
unfolding prune_meta
prune_metas now max_age [] metas = metas
prune_metas now max_age (net_id ∷ ids) metas =
    prune_metas now max_age ids (prune_meta now max_age net_id metas)

-- pruneExpiredPending
unfoldable pub prune_expired_pending : ℕ → ℕ → Pending → Pending
unfolding prune_queues prune_metas
prune_expired_pending now max_age p = record {
  pending_queue = prune_queues now max_age (keys p.pending_queue) p.pending_queue;
  pending_meta = prune_metas now max_age (keys p.pending_meta) p.pending_meta;
}
