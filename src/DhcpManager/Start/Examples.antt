-- ===== src/DhcpManager/Start/Examples.antt =====
-- A manager that finds the namespace of its container by the process (pkg/plugin/dhcp_manager.go).
use docker_net_dhcp.Shared.{ℕ, [], ◌∷◌, Option, none, some, if◌then◌else◌, ◌≡◌, refl, arith}
use docker_net_dhcp.Shared.Text.{Text, text, str_eq, cut_prefix}
use docker_net_dhcp.Shared.Result.{ok, err}
use docker_net_dhcp.Errors.{other}
use docker_net_dhcp.Netlink.{await}
use docker_net_dhcp.DhcpManager.Start.{
  Poll, Links, find_link, start, proc_path, poll_once, fallback, find_pid,
}
use docker_net_dhcp.DhcpManager.Start.Found.{Waits, start-fallback}
use docker_net_dhcp.Network.Recover.{ns_path}

abbrev key : Text
key = text "abc"

abbrev endpoint : Text
endpoint = text "ep1ep1ep1ep1"

-- only the namespace of process 42 can be opened
abbrev at_path : Text → Option ℕ
at_path path = if str_eq path (text "/proc/42/ns/net") then some 7 else none

abbrev early : Poll ℕ
early = record {
  at_path = at_path;
  containers = err (other (text "not yet"));
  pid_of = λ c. ok 42;
  done = none;
}

abbrev late : Poll ℕ
late = record early { containers = ok ((text "ctr1", endpoint) ∷ []) }

abbrev links : Links ℕ ℕ Text
links = record {
  handle_at = λ ns. ok 1;
  host_link = λ name. ok (text "veth");
  peer_index = λ name. ok 3;
  by_index = λ handle index. none ∷ some (text "eth0") ∷ [];
  overdue = other (text "deadline");
}

early-Waits : Waits (ns_path key) endpoint early
unfolding str_eq cut_prefix poll_once fallback find_pid
early-Waits = (refl, refl)

start-fallback_example :
    start links key endpoint (early ∷ late ∷ []) ≡ some (ok (proc_path 42, text "eth0"))
unfolding cut_prefix
start-fallback_example =
    start-fallback links key endpoint (text "ctr1") (early ∷ []) [] late [] [] 42 7 (text "eth0")
      (early-Waits, tt) (unfold str_eq in refl) refl tt refl (omega arith) (unfold str_eq in refl)
      (unfold find_link await str_eq in refl)
