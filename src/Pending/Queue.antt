-- ===== src/Pending/Queue.antt =====
-- The FIFO queue of pkg/plugin/plugin.go: pushPendingContainer and popPendingContainer.
use docker_net_dhcp.Shared.{
  ℕ, List, [], ◌∷◌, ◌++◌, Bool, not, Option, none, some, if◌then◌else◌, ◌≡◌, arith, keep,
  List-cases, inl, inr,
}
use docker_net_dhcp.Shared.Text.{Text, str_eq, str_eq_iff}
use docker_net_dhcp.Shared.Dict.{get-put}
use docker_net_dhcp.Shared.Slice.{compact-keep}
use docker_net_dhcp.Pending.{
  PendingContainer, Pending, queue_of, pushed, push_pending_container, pop_pending_container,
}

abbrev pub pending : ℕ → Text → Text → Bool → PendingContainer
pending now name hostname forward = record {
  name = name;
  hostname = hostname;
  created_at = now;
  forward = forward;
}

abbrev pub front : List PendingContainer → Option (Text × Text)
front [] = none
front (pc ∷ q) = some (pc.name, pc.hostname)

abbrev pub rest : List PendingContainer → List PendingContainer
rest [] = []
rest (pc ∷ q) = q

-- the queue after a push, as filters into new slices
abbrev pub appended : PendingContainer → List PendingContainer → List PendingContainer
appended new queue =
    keep (λ pc. not (str_eq pc.name new.name))
      (if new.forward then keep (λ pc. pc.forward) queue else queue)
    ++ new ∷ []

pushed-appended :
    (new : PendingContainer) (queue : List PendingContainer) → pushed new queue ≡ appended new queue
unfolding pushed
pushed-appended new queue = simp compact-keep

-- A push puts the new entry last on the queue of its network, behind the entries that were there in
-- their order, less those of the same name and, if the new entry is forward, less the backward
-- ones. The queues of the other networks stay.
pub queue_of-push :
    (now : ℕ) (n name hostname : Text) (forward : Bool) (p : Pending) (m : Text)
    → queue_of m (push_pending_container now n name hostname forward p) ≡ (
        if str_eq n m
        then appended (pending now name hostname forward) (queue_of n p)
        else queue_of m p)
unfolding queue_of push_pending_container
queue_of-push now n name hostname forward p m =
    rw (get-put, pushed-appended) (ground (arith, str_eq_iff n m))

-- A pop hands out the name and the hostname of the front entry and takes it off the queue of its
-- network; from an empty queue it hands out nothing. The queues of the other networks stay.
pub queue_of-pop :
    (n : Text) (p : Pending) (m : Text)
    → ((pop_pending_container n p).1 ≡ front (queue_of n p))
      × (queue_of m (pop_pending_container n p).0
          ≡ (if str_eq n m then rest (queue_of n p) else queue_of m p))
unfolding pop_pending_container
queue_of-pop n p m = elim (List-cases (queue_of n p)) [
  | inl h ↦ ground (arith, h, str_eq_iff n m)
  | inr (pc, q, h) ↦ ground (arith, h, str_eq_iff n m, get-put n m q p.pending_queue)
]
