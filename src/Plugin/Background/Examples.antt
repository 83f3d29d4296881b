-- ===== src/Plugin/Background/Examples.antt =====
-- A stream that breaks once, and ticks of the scavenger (pkg/plugin/plugin.go).
use docker_net_dhcp.Shared.{List, [], ◌∷◌, true, some, ◌≡◌, keep}
use docker_net_dhcp.Shared.Text.{text, str_eq}
use docker_net_dhcp.Shared.Dict
use docker_net_dhcp.Cache.Sample.{fine}
use docker_net_dhcp.Pending.{PendingContainer, Pending, queue_of}
use docker_net_dhcp.Plugin.Events.Sample.{docker}
use docker_net_dhcp.Plugin.Events.Sample
use docker_net_dhcp.Plugin.Background.{Incoming, message, stream_error, scavenger_loop}
use docker_net_dhcp.Plugin.Background.Alive.{queue_of-scavenger_loop}

abbrev incoming : List Incoming
incoming = stream_error ∷ message docker 5 fine Sample.message ∷ stream_error ∷ []

abbrev fresh : PendingContainer
fresh = record { name = text "db"; hostname = text "db"; created_at = 100000000000; forward = true }

abbrev two_waiting : Pending
two_waiting = record {
  pending_queue =
      (
        text "net1",
        record { name = text "web"; hostname = text "web"; created_at = 7; forward = true }
            ∷ fresh
            ∷ [],
      )
      ∷ [];
  pending_meta = [];
}

queue_of-scavenger_loop_example :
    queue_of (text "net1") (scavenger_loop (some 8 ∷ some 150000000000 ∷ []) two_waiting)
    ≡ fresh ∷ []
unfolding Dict.get str_eq keep queue_of
queue_of-scavenger_loop_example =
    queue_of-scavenger_loop (some 8 ∷ some 150000000000 ∷ []) two_waiting (text "net1")
