-- ===== src/Boot.antt =====
-- The life of the plugin's process: NewPlugin, Listen and Close of pkg/plugin/plugin.go, and the end of
-- `main` of cmd/net-dhcp/main.go, which calls them. The two goroutines of main run in some order, so
-- what they see is a list of occurrences.
pub mod Resume
pub mod Shutdown
mod Examples
use docker_net_dhcp.Shared.{List, [], ◌∷◌, Bool, Option, none, some}
use docker_net_dhcp.Shared.Text.{Text, text}
use docker_net_dhcp.Shared.Dict.{Dict}
use docker_net_dhcp.Shared.Result.{Result, ok, err}
use docker_net_dhcp.Driver.{DhcpNetworkOptions}
use docker_net_dhcp.Json.{Json}
use docker_net_dhcp.Cache.State.{NetworkState}
use docker_net_dhcp.Cache.Disk.{Disk, Outcome}
use docker_net_dhcp.Cache.Load.{new_network_cache}
use docker_net_dhcp.Cache.Reconcile.{Answer, reconcile}
use docker_net_dhcp.Errors.{Error, wrapped}
use docker_net_dhcp.Plugin.{Plugin}

-- what NewPlugin meets: the error of the client of Docker's API, whether the file of the cache can be
-- read, what json.Unmarshal leaves of one with values of the wrong kind, Docker's list of networks,
-- and the disk
pub record Setting : Type 0 where
  pub client_error : Option Error
  pub readable : Bool
  pub partial : Json → Dict NetworkState
  pub answer : Answer
  pub outcome : Outcome
  pub decode_opts : Dict Text → Option DhcpNetworkOptions

-- the plugin that NewPlugin makes, with its cache reconciled
abbrev pub booted : Setting → Disk → Plugin
booted s d = record {
  cache = reconcile s.decode_opts s.outcome s.answer (new_network_cache s.partial s.readable d);
  pending = record { pending_queue = []; pending_meta = [] };
  join_hints = [];
  persistent_dhcp = [];
  calls = [];
}

-- NewPlugin, up to its goroutines
unfoldable pub new_plugin : Setting → Disk → Result Error Plugin
new_plugin s d = elim s.client_error [
  | some e ↦ err (wrapped (text "failed to create docker client") e)
  | none ↦ ok (booted s d)
]

-- Listen, from the error of net.Listen if any, and the one with which Serve ends
unfoldable pub listen : Option Error → Error → Error
listen (some e) served = e
listen none served = served

-- Close, from the errors of closing the client and the server
unfoldable pub close : Option Error → Option Error → Option Error
close (some e) server = some (wrapped (text "failed to close docker client") e)
close none (some e) = some (wrapped (text "failed to close http server") e)
close none none = none

-- what happens once the server is started: a signal, the end of Listen with its error, the end of
-- Close
pub data Occurrence : Type 0 where
  signal : Occurrence
  listened : Error → Occurrence
  closed : Option Error → Occurrence

-- how far main has got, and how the process ends
pub data Stage : Type 0 where
  serving : Stage
  closing : Stage
  failed : (message : Text) → Error → Stage
  returned : Stage

unfoldable pub occur : Stage → Occurrence → Stage
occur serving signal = closing
occur serving (listened e) = failed (text "Failed to start plugin") e
occur serving (closed e) = serving
occur closing signal = closing
occur closing (listened e) = failed (text "Failed to start plugin") e
occur closing (closed none) = returned
occur closing (closed (some e)) = failed (text "Failed to stop plugin") e
occur (failed message e) o = failed message e
occur returned o = returned

unfoldable pub run_from : Stage → List Occurrence → Stage
unfolding occur
run_from stage [] = stage
run_from stage (o ∷ os) = run_from (occur stage o) os

-- the end of main, from NewPlugin on
unfoldable pub run : Setting → Disk → List Occurrence → Stage
unfolding new_plugin run_from
run s d os = elim (new_plugin s d) [
  | err e ↦ failed (text "Failed to create plugin") e
  | ok p ↦ run_from serving os
]
