-- ===== src/DhcpManager/Start.antt =====
-- pkg/plugin/dhcp_manager.go: how a manager finds the network namespace of its container and the
-- link in it, `findPID`, `awaitNetNS` and `Start`.
pub mod Found
mod Examples
use docker_net_dhcp.Shared.{
  ℕ, zero, suc, ◌+◌, ◌/◌, ◌%◌, List, [], ◌∷◌, ◌++◌, Bool, true, false, ◌&&◌, Option, none, some,
  if◌then◌else◌, ltb,
}
use docker_net_dhcp.Shared.Text.{Text, text, str_eq}
use docker_net_dhcp.Shared.Dict.{Dict}
use docker_net_dhcp.Shared.Result.{Result, ok, err, ◌>>=◌}
use docker_net_dhcp.Errors.{Error, not_veth, other}
use docker_net_dhcp.Network.{veth_pair_names}
use docker_net_dhcp.Network.Recover.{ns_path}
use docker_net_dhcp.Netlink.{await}

-- What one poll meets: the handle at the path of the sandbox, the endpoints of the network's
-- containers as Docker shows them, the process of a container, the handle at the path of a process,
-- and whether the context is done after it.
pub record Poll (A : Type 0) : Type 0 where
  pub at_path : Text → Option A
  pub containers : Result Error (Dict Text)
  pub pid_of : Text → Result Error ℕ
  pub done : Option Error

-- %d of a number, with fuel for more digits than it has
abbrev pub digits : ℕ → ℕ → Text
digits zero n = []
digits (suc fuel) n =
    let more = digits fuel (n / 10) in (if ltb n 10 then [] else more) ++ (b'0' + n % 10) ∷ []

abbrev pub proc_path : ℕ → Text
proc_path pid = text "/proc/" ++ (digits (suc pid) pid ++ text "/ns/net")

-- the container that has the endpoint, of those that a `range` meets
unfoldable pub container_of : Text → Dict Text → Option Text
container_of endpoint_id [] = none
container_of endpoint_id ((container, ep) ∷ more) =
    let rest = container_of endpoint_id more in
    if str_eq ep endpoint_id then some container else rest

-- findPID
unfoldable pub find_pid : {A : Type 0} → Text → Poll A → Result Error ℕ
unfolding container_of
find_pid endpoint_id t = do
  containers ← t.containers
  elim (container_of endpoint_id containers) [
    | none ↦ err (other (text "container for endpoint not found"))
    | some container ↦ t.pid_of container
  ]

-- the fallback: the path of the container's process and the handle there
unfoldable pub fallback : {A : Type 0} → Text → Poll A → Option (Text × A)
unfolding find_pid
fallback endpoint_id t = elim (find_pid endpoint_id t) [
  | err e ↦ none
  | ok pid ↦
      if ltb 0 pid
      then elim (t.at_path (proc_path pid)) [ none ↦ none | some ns ↦ some (proc_path pid, ns) ]
      else none
]

-- one round of the polling: the path that the manager has then, and the handle
unfoldable pub poll_once : {A : Type 0} → Text → Text → Poll A → Option (Text × A)
unfolding fallback
poll_once path endpoint_id t = elim (t.at_path path) [
  | some ns ↦ some (path, ns)
  | none ↦ fallback endpoint_id t
]

-- awaitNetNS on the polls that it makes; `none` is a wait that is not over after them
unfoldable pub await_net_ns :
    {A : Type 0} → Text → Text → List (Poll A) → Option (Result Error (Text × A))
unfolding poll_once
await_net_ns path endpoint_id [] = none
await_net_ns path endpoint_id (t ∷ polls) =
    let rest = await_net_ns path endpoint_id polls in
    elim (poll_once path endpoint_id t) [
      | some found ↦ some (ok found)
      | none ↦ elim t.done [ some e ↦ some (err e) | none ↦ rest ]
    ]

-- the answers of netlink to Start: a handle in the namespace, the type of the host's link by its
-- name, the index of its peer, and the polls for the link with that index, with the context's error
pub record Links (A B L : Type 0) : Type 0 where
  pub handle_at : A → Result Error B
  pub host_link : Text → Result Error Text
  pub peer_index : Text → Result Error ℕ
  pub by_index : B → ℕ → List (Option L)
  pub overdue : Error

-- Start from the handle on: the link of the container
unfoldable pub find_link : {A B L : Type 0} → Links A B L → Text → A → Result Error L
unfolding await
find_link w endpoint_id ns = do
  handle ← w.handle_at ns
  let host = (veth_pair_names endpoint_id).0
  kind ← w.host_link host
  checked ← if str_eq kind (text "veth") then ok tt else err not_veth
  index ← w.peer_index host
  await w.overdue (w.by_index handle index)

-- Start: the path of the namespace and the link; `none` is a wait that is not over
unfoldable pub start :
    {A B L : Type 0} → Links A B L → Text → Text → List (Poll A) → Option (Result Error (Text × L))
unfolding await_net_ns find_link
start w sandbox_key endpoint_id polls =
    elim (await_net_ns (ns_path sandbox_key) endpoint_id polls) [
      | none ↦ none
      | some (err e) ↦ some (err e)
      | some (ok (path, ns)) ↦ elim (find_link w endpoint_id ns) [
        | err e ↦ some (err e)
        | ok link ↦ some (ok (path, link))
      ]
    ]
