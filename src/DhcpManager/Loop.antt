-- ===== src/DhcpManager/Loop.antt =====
-- `setupClient` of pkg/plugin/dhcp_manager.go: the start of a DHCP client, and the goroutine that
-- handles its events and starts another one when it has ended. What the goroutine meets comes as a
-- list of rounds, one for each client that it runs; after the last round its client still runs.
use docker_net_dhcp.Shared.{
  ℕ, suc, List, [], ◌∷◌, Bool, true, false, ◌&&◌, ◌||◌, not, Option, none, some, if◌then◌else◌,
  take,
}
use docker_net_dhcp.Shared.Text.{Text, text, is_empty}
use docker_net_dhcp.Shared.Result.{Result, ok, err, ◌>>=◌}
use docker_net_dhcp.Errors.{Error, other}
use docker_net_dhcp.Udhcpc.{
  Event, ClientOptions, DhcpClient, Process, Wait, new_dhcp_client, start_client,
}
use docker_net_dhcp.DhcpManager.{Kernel, Progress, process_events}

-- the fields of the manager that the clients of one family need
pub record Family : Type 0 where
  pub v6 : Bool
  pub hostname : Text
  pub ns_path : Text
  pub link : Text

abbrev pub client_options : Family → ClientOptions
client_options f = record {
  hostname = f.hostname;
  mac_address = [];
  v6 = f.v6;
  once = false;
  namespace = f.ns_path;
  handler_script = [];
}

-- a client that runs, and the events that it will send
pub record Running : Type 0 where
  pub client : DhcpClient
  pub events : List Event

-- NewDHCPClient and Start
unfoldable pub launch : Family → Process → Result Error Running
unfolding new_dhcp_client start_client
launch f p = do
  client ← new_dhcp_client p f.link (client_options f)
  events ← start_client p
  ok (record { client = client; events = events })

-- a try to start another client, after five seconds: whether the manager has been stopped by then,
-- whether os.Stat finds the namespace gone, and the new process
pub record Attempt : Type 0 where
  pub stopped : Bool
  pub gone : Bool
  pub process : Process

-- a round: after how many events the manager is stopped, if so, how the client ends, whether the
-- manager is stopped, and the namespace gone, after that, and the tries to start another client
pub record Round : Type 0 where
  pub cut : Option ℕ
  pub wait : Wait
  pub stopped : Bool
  pub gone : Bool
  pub attempts : List Attempt

pub data Phase : Type 0 where
  running waiting ended : Phase

pub record Loop : Type 0 where
  pub phase : Phase
  pub progress : Progress
  pub launched : ℕ
  pub released : ℕ

-- how the inner loop goes on
pub data Fate : Type 0 where
  halted pending : Fate
  restarted : Running → Fate

-- the test with os.Stat, which only a manager with a path makes
abbrev pub vanished : Family → Bool → Bool
vanished f gone = not (is_empty f.ns_path) && gone

-- the inner loop
unfoldable pub retry : Family → List Attempt → Fate
unfolding launch
retry f [] = pending
retry f (a ∷ more) =
    let rest = retry f more in
    if a.stopped || vanished f a.gone
    then halted
    else elim (launch f a.process) [ err e ↦ rest | ok r ↦ restarted r ]

abbrev pub handled : Option ℕ → List Event → List Event
handled none es = es
handled (some n) es = take n es

abbrev pub is_cut : Option ℕ → Bool
is_cut none = false
is_cut (some n) = true

-- processEvents with a new counter, and the Release of the client
unfoldable pub run_client : Kernel → Family → Running → Round → Loop → Loop
unfolding process_events
run_client k f r round s = record s {
  progress =
      process_events k f.v6 (handled round.cut r.events)
        (record s.progress { collision_count = 0 });
  released = suc s.released;
}

-- the goroutine
unfoldable pub loop : Kernel → Family → Running → List Round → Loop → Loop
unfolding run_client retry
loop k f r [] s = s
loop k f r (round ∷ rounds) s =
    let t = run_client k f r round s in
    if (is_cut round.cut || round.stopped) || vanished f round.gone
    then record t { phase = ended }
    else elim (retry f round.attempts) [
      | halted ↦ record t { phase = ended }
      | pending ↦ record t { phase = waiting }
      | restarted next ↦ loop k f next rounds (record t { launched = suc t.launched })
    ]

-- the answers to setupClient before the goroutine: the link, its name as netlink shows it now, and
-- the error of os.Stat, if it is that the namespace does not exist
pub record Setup : Type 0 where
  pub link : Option Text
  pub fresh_name : Option Text
  pub missing : Option Error
  pub process : Process

abbrev pub or_name : Option Text → Text → Text
or_name none name = name
or_name (some fresh) name = fresh

abbrev pub missing_error : Family → Option Error → Result Error Unit
missing_error f none = ok tt
missing_error f (some e) = if is_empty f.ns_path then ok tt else err e

-- setupClient: an error, or the client that the goroutine starts with; the family's link gets the
-- name that it has now
unfoldable pub setup_client : Setup → Family → Result Error (Family × Running)
unfolding launch
setup_client w f = elim w.link [
  | none ↦ err (other (text "container link is not initialized"))
  | some name ↦ do
    let g = record f { link = or_name w.fresh_name name }
    there ← missing_error g w.missing
    r ← launch g w.process
    ok (g, r)
]

abbrev pub begin : Progress → Loop
begin p = record { phase = running; progress = p; launched = 1; released = 0 }
