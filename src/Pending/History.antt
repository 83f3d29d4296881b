-- ===== src/Pending/History.antt =====
-- The pending containers of pkg/plugin/plugin.go over time: any sequence of events and of calls.
use docker_net_dhcp.Shared.{ℕ, [], Bool}
use docker_net_dhcp.Shared.Text.{Text}
use docker_net_dhcp.Shared.Dict
use docker_net_dhcp.Pending.{
  Pending, queue_of, push_pending_container, pop_pending_container, upsert_pending_meta,
  prune_expired_pending,
}
use docker_net_dhcp.Pending.Meta.{lookup-upsert}
use docker_net_dhcp.Pending.Prune.{queue_of-prune, is_fresh}
use docker_net_dhcp.Pending.Compose.{IsUnique, push-IsUnique, pop-IsUnique, keep-IsUnique}

pub data Step (p : Pending) : Pending → Type 0 where
  pushes :
      (now : ℕ) (n name hostname : Text) (forward : Bool)
      → Step p (push_pending_container now n name hostname forward p)
  pops : (n : Text) → Step p (pop_pending_container n p).0
  upserts : (now : ℕ) (n name hostname : Text) → Step p (upsert_pending_meta now n name hostname p)
  prunes : (now max_age : ℕ) → Step p (prune_expired_pending now max_age p)

pub data Reach (p : Pending) : Pending → Type 0 where
  here : Reach p p
  next : {q r : Pending} → Reach p q → Step q r → Reach p r

-- as NewPlugin makes it
abbrev pub start : Pending
start = record { pending_queue = []; pending_meta = [] }

abbrev pub IsWellFormed : Pending → Type 0
IsWellFormed p = (n : Text) → IsUnique (queue_of n p)

Step-IsWellFormed : {p q : Pending} → Step p q → IsWellFormed p → IsWellFormed q
Step-IsWellFormed {p} (pushes now n name hostname forward) u m =
    push-IsUnique now n name hostname forward p m (u n) (u m)
Step-IsWellFormed {p} (pops n) u m = pop-IsUnique n p m (u m)
Step-IsWellFormed {p} (upserts now n name hostname) u m =
    rw (lookup-upsert now n name hostname p m name).1 (u m)
Step-IsWellFormed {p} (prunes now max_age) u m =
    rw queue_of-prune (keep-IsUnique (is_fresh now max_age) (queue_of m p) (u m))

start-IsWellFormed : IsWellFormed start
unfolding queue_of Dict.get
start-IsWellFormed n = tt

-- From the start of the plugin on, whatever events and calls come in whatever order, no container
-- name stands twice in the queue of a network.
pub Reach-IsWellFormed : {p : Pending} → Reach start p → (n : Text) → IsUnique (queue_of n p)
Reach-IsWellFormed here n = start-IsWellFormed n
Reach-IsWellFormed (next {q} r st) n = Step-IsWellFormed st (λ m. Reach-IsWellFormed r m) n
