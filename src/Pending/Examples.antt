-- ===== src/Pending/Examples.antt =====
-- Runs and theorems on the scenarios of pkg/plugin/pending_test.go.
use docker_net_dhcp.Shared.{[], ◌∷◌, true, false, some, if◌then◌else◌, ◌≡◌, refl, keep}
use docker_net_dhcp.Shared.Text.{Text, text, str_eq}
use docker_net_dhcp.Shared.Slice.{compact}
use docker_net_dhcp.Shared.Dict
use docker_net_dhcp.Pending.{
  Pending, queue_of, pushed, push_pending_container, pop_pending_container, lookup_pending_meta,
  prune_expired_pending,
}
use docker_net_dhcp.Pending.Queue.{pending, appended, queue_of-push}
use docker_net_dhcp.Pending.Prune.{is_fresh, fresh_name, entry, prune_expired_pending_lem}
use docker_net_dhcp.Pending.History.{start}

abbrev net : Text
net = text "net1"

abbrev other : Text
other = text "net2"

-- two containers of one network have died
abbrev downed : Pending
downed = record {
  pending_queue =
      (net, pending 1 (text "db") (text "db") false ∷ pending 2 (text "web") (text "w") false ∷ [])
      ∷ [];
  pending_meta = (net, (text "db", pending 1 (text "db") (text "db") false) ∷ []) ∷ [];
}

downed_queue :
    queue_of net downed
    ≡ pending 1 (text "db") (text "db") false ∷ pending 2 (text "web") (text "w") false ∷ []
unfolding queue_of Dict.get str_eq
downed_queue = refl

queue_of-push_example :
    queue_of net (push_pending_container 3 net (text "web") (text "web") false downed) ≡ (
      if str_eq net net
      then appended (pending 3 (text "web") (text "web") false) (queue_of net downed)
      else queue_of net downed)
queue_of-push_example = queue_of-push 3 net (text "web") (text "web") false downed net

start_is_empty : queue_of net start ≡ []
unfolding queue_of Dict.get
start_is_empty = refl

prune_expired_pending_example :
    (queue_of net (prune_expired_pending 12 10 downed)
      ≡ keep (is_fresh 12 10) (queue_of net downed))
    × (lookup_pending_meta net (text "db") (prune_expired_pending 12 10 downed)
        ≡ fresh_name 12 10 (entry 12 10 (text "db") (Dict.get net downed.pending_meta)))
prune_expired_pending_example = prune_expired_pending_lem 12 10 downed net (text "db")

-- The first container that was created is the first to be taken.
fifo_run :
    (pop_pending_container net (
      push_pending_container 2 net
        (text "b")
        (text "b")
        true
        (push_pending_container 1 net (text "a") (text "a") true start))).1
    ≡ some (text "a", text "a")
unfolding pop_pending_container push_pending_container pushed compact Dict.get Dict.put str_eq
fifo_run = refl

-- At 12, an entry of 1 is older than 10, and one of 2 is not.
prune_run :
    queue_of net (prune_expired_pending 12 10 downed) ≡ pending 2 (text "web") (text "w") false ∷ []
unfolding queue_of prune_expired_pending compact Dict.get Dict.put str_eq
prune_run = refl
