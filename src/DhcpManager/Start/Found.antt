-- ===== src/DhcpManager/Start/Found.antt =====
-- The wait for the namespace in pkg/plugin/dhcp_manager.go: when it is over, and with which path.
use docker_net_dhcp.Shared.{
  ℕ, ◌<◌, List, [], ◌∷◌, ◌++◌, false, none, some, ◌≡◌, refl, ◌∙◌, arith, All,
}
use docker_net_dhcp.Shared.Text.{Text, str_eq, str_eq_refl}
use docker_net_dhcp.Shared.Dict.{Dict}
use docker_net_dhcp.Shared.Result.{ok}
use docker_net_dhcp.Network.Recover.{ns_path}
use docker_net_dhcp.DhcpManager.Start.{
  Poll, Links, container_of, find_pid, fallback, poll_once, await_net_ns, find_link, proc_path,
  start,
}

-- a poll that finds nothing, before the context is done
abbrev pub Waits : {A : Type 0} → Text → Text → Poll A → Type 0
Waits path endpoint_id t = (poll_once path endpoint_id t ≡ none) × (t.done ≡ none)

await-append :
    {A : Type 0} (path endpoint_id : Text) (waits polls : List (Poll A))
    → All (Waits path endpoint_id) waits
    → await_net_ns path endpoint_id (waits ++ polls) ≡ await_net_ns path endpoint_id polls
unfolding await_net_ns
await-append path endpoint_id [] polls h = refl
await-append path endpoint_id (t ∷ waits) polls h =
    rw (await_net_ns, h.0.0, h.0.1) (await-append path endpoint_id waits polls h.1)

-- the containers before that of the endpoint have other endpoints
abbrev pub Others : Text → Dict Text → Type 0
Others endpoint_id containers = All (λ c. str_eq c.1 endpoint_id ≡ false) containers

container_of-append :
    (endpoint_id container : Text) (others more : Dict Text)
    → Others endpoint_id others
    → container_of endpoint_id (others ++ (container, endpoint_id) ∷ more) ≡ some container
unfolding container_of
container_of-append e c [] more h = rw (container_of, str_eq_refl e) refl
container_of-append e c ((d, x) ∷ others) more h =
    rw (container_of, h.0) (container_of-append e c others more h.1)

find_pid-shown :
    {A : Type 0} (e c : Text) (t : Poll A) (others more : Dict Text) (pid : ℕ)
    → t.containers ≡ ok (others ++ (c, e) ∷ more)
    → Others e others
    → t.pid_of c ≡ ok pid
    → find_pid e t ≡ ok pid
unfolding find_pid
find_pid-shown e c t others more pid shown bare runs =
    ground (arith, shown, container_of-append e c others more bare, runs)

poll_once-fallback :
    {A : Type 0} (path e : Text) (t : Poll A) (pid : ℕ) (ns : A)
    → t.at_path path ≡ none
    → find_pid e t ≡ ok pid
    → 0 < pid
    → t.at_path (proc_path pid) ≡ some ns
    → poll_once path e t ≡ some (proc_path pid, ns)
unfolding poll_once fallback
poll_once-fallback path e t pid ns closed runs positive opened =
    ground (arith, closed, runs, positive, opened)

-- A manager whose sandbox has no path that it can open still starts: once Docker shows the container
-- of the endpoint with a process, whose namespace can be opened, the wait is over with the path of
-- that process, and the manager starts on the link there, however many polls came before in which
-- nothing was found. This is for a wait whose context is not done before, and a link that is found.
pub start-fallback :
    {A B L : Type 0} (w : Links A B L) (sandbox_key endpoint_id container : Text)
    (waits polls : List (Poll A)) (t : Poll A) (others more : Dict Text) (pid : ℕ) (ns : A)
    (link : L)
    → All (Waits (ns_path sandbox_key) endpoint_id) waits
    → t.at_path (ns_path sandbox_key) ≡ none
    → t.containers ≡ ok (others ++ (container, endpoint_id) ∷ more)
    → Others endpoint_id others
    → t.pid_of container ≡ ok pid
    → 0 < pid
    → t.at_path (proc_path pid) ≡ some ns
    → find_link w endpoint_id ns ≡ ok link
    → start w sandbox_key endpoint_id (waits ++ t ∷ polls) ≡ some (ok (proc_path pid, link))
unfolding start await_net_ns
start-fallback w key e c waits polls t others more pid ns link h closed shown bare runs positive
      opened found =
    let shown_pid = find_pid-shown e c t others more pid shown bare runs in
    let here = poll_once-fallback (ns_path key) e t pid ns closed shown_pid positive opened in
    let over : await_net_ns (ns_path key) e (waits ++ t ∷ polls) ≡ some (ok (proc_path pid, ns)) =
      await-append (ns_path key) e waits (t ∷ polls) h ∙ rw (await_net_ns, here) refl in
    rw (start, over, found) refl
