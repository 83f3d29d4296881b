-- ===== src/Udhcpc.antt =====
-- pkg/udhcpc: the client that runs udhcpc(6) and reads what the handler writes for each of its
-- events. The process and its pipes are a `Process`, whose lines are documents, or are none.
pub mod Lease
pub mod Fqdn
pub mod Signals
pub mod Handler
mod Examples
use docker_net_dhcp.Shared.{
  ℕ, ◌%◌, List, [], ◌∷◌, ◌++◌, Bool, true, false, ◌||◌, Option, none, some, if◌then◌else◌, length,
}
use docker_net_dhcp.Shared.Text.{Text, text, str_eq, is_empty}
use docker_net_dhcp.Shared.Result.{Result, ok, err, ◌>>=◌}
use docker_net_dhcp.Macgen.Hex.{encode_hex}
use docker_net_dhcp.Json.{Json, object, field, string, end}
use docker_net_dhcp.Json.Decode.{same_name, decode_string, decode_object, with_value}
use docker_net_dhcp.Errors.{Error, wrapped, no_lease}

pub record Info : Type 0 where
  pub ip : Text
  pub gateway : Text
  pub domain : Text

pub record Event : Type 0 where
  pub kind : Text
  pub data_of : Info

abbrev pub no_info : Info
no_info = record { ip = []; gateway = []; domain = [] }

abbrev pub no_event : Event
no_event = record { kind = []; data_of = no_info }

-- DHCPClientOptions
pub record ClientOptions : Type 0 where
  pub hostname : Text
  pub mac_address : Text
  pub v6 : Bool
  pub once : Bool
  pub namespace : Text
  pub handler_script : Text

-- what the process and its pipes do: the errors of StderrPipe, StdoutPipe and Start, the lines that
-- the scanner reads of its output before the pipe is closed, and whether it ends, with the error of
-- Wait if any, or the context is done before
pub data Wait : Type 0 where
  exited : Option Error → Wait
  overdue : Error → Wait

pub record Process : Type 0 where
  pub stderr_pipe : Option Error
  pub stdout_pipe : Option Error
  pub start : Option Error
  pub lines : List (Option Json)
  pub wait : Wait

pub record DhcpClient : Type 0 where
  pub opts : ClientOptions
  pub args : List Text

abbrev pub default_handler : Text
default_handler = text "/usr/lib/net-dhcp/udhcpc-handler"

abbrev pub vendor_id : Text
vendor_id = text "docker-net-dhcp"

unfoldable pub with_handler : ClientOptions → ClientOptions
with_handler opts =
    if is_empty opts.handler_script then record opts { handler_script = default_handler } else opts

-- exec.Command
unfoldable pub command : Text → ClientOptions → List Text
command iface opts =
    let path = if opts.v6 then text "udhcpc6" else text "udhcpc" in
    let run = path ∷ text "-f" ∷ text "-i" ∷ iface ∷ text "-s" ∷ opts.handler_script ∷ [] in
    if is_empty opts.namespace
    then run
    else text "nsenter" ∷ (text "--net=" ++ opts.namespace) ∷ run

unfoldable pub retry_args : Bool → List Text
retry_args once =
    if once
    then text "-t" ∷ text "5" ∷ text "-T" ∷ text "3" ∷ text "-A" ∷ text "5" ∷ []
    else text "-T" ∷ text "5" ∷ text "-A" ∷ text "30" ∷ []

-- the data of option 39: the flags, the length in a byte, the name
unfoldable pub fqdn_data : Text → List ℕ
fqdn_data hostname = 1 ∷ length hostname % 256 ∷ hostname

unfoldable pub hostname_args : Bool → Text → List Text
unfolding fqdn_data
hostname_args v6 hostname =
    if is_empty hostname
    then []
    else if v6
    then text "-x" ∷ (text "0x27:" ++ encode_hex (fqdn_data hostname)) ∷ []
    else text "-F" ∷ hostname ∷ text "-x" ∷ (text "hostname:" ++ hostname) ∷ []

unfoldable pub client_args : Text → ClientOptions → List Text
unfolding command retry_args hostname_args
client_args iface opts =
    command iface opts
    ++ (retry_args opts.once
        ++ ((if opts.once then text "-q" ∷ [] else [])
            ++ (hostname_args opts.v6 opts.hostname
                ++ (if opts.v6 then [] else text "-V" ∷ vendor_id ∷ []))))

abbrev pub check : Text → Option Error → Result Error Unit
check message none = ok tt
check message (some e) = err (wrapped message e)

unfoldable pub new_dhcp_client : Process → Text → ClientOptions → Result Error DhcpClient
unfolding with_handler client_args
new_dhcp_client p iface opts = do
  piped ← check (text "failed to set up udhcpc stderr pipe") p.stderr_pipe
  read ← check (text "failed to set up udhcpc stdout pipe") p.stdout_pipe
  let made = with_handler opts
  ok (record { opts = made; args = client_args iface made })

unfoldable pub info_field : Text → Json → Info → Option Info
unfolding same_name decode_string
info_field k v info =
    if same_name k (text "IP")
    then with_value (decode_string v info.ip) (λ s. record info { ip = s })
    else if same_name k (text "Gateway")
    then with_value (decode_string v info.gateway) (λ s. record info { gateway = s })
    else if same_name k (text "Domain")
    then with_value (decode_string v info.domain) (λ s. record info { domain = s })
    else some info

unfoldable pub event_field : Text → Json → Event → Option Event
unfolding same_name decode_string decode_object info_field
event_field k v e =
    if same_name k (text "Type")
    then with_value (decode_string v e.kind) (λ s. record e { kind = s })
    else if same_name k (text "Data")
    then with_value (decode_object info_field v e.data_of) (λ i. record e { data_of = i })
    else some e

-- json.Unmarshal into an Event
unfoldable pub decode_event : Json → Option Event
unfolding decode_object event_field
decode_event doc = decode_object event_field doc no_event

-- json.Encoder on an Event, whose fields have no tags
unfoldable pub encode_event : Event → Json
encode_event e = object (
    field (text "Type") (string e.kind) (
      field (text "Data")
        (object (
          field (text "IP") (string e.data_of.ip) (
            field (text "Gateway") (string e.data_of.gateway)
              (field (text "Domain") (string e.data_of.domain) end))))
        end))

-- the events that the goroutine of Start sends, until the output ends and it closes the channel; a
-- line that is no event is skipped
unfoldable pub events_of : List (Option Json) → List Event
unfolding decode_event
events_of [] = []
events_of (none ∷ lines) = events_of lines
events_of (some doc ∷ lines) =
    let rest = events_of lines in elim (decode_event doc) [ none ↦ rest | some e ↦ e ∷ rest ]

-- Start
unfoldable pub start_client : Process → Result Error (List Event)
unfolding events_of
start_client p = elim p.start [ some e ↦ err e | none ↦ ok (events_of p.lines) ]

pub data Signal : Type 0 where
  sigterm sigkill : Signal

-- what is sent to the process, and the error, of Reap and of Release; `started` is whether
-- cmd.Process is there
unfoldable pub reap : Bool → Wait → List Signal × Option Error
reap started (exited e) = ([], e)
reap started (overdue e) = (if started then sigkill ∷ [] else [], some e)

unfoldable pub release : Bool → Wait → List Signal × Option Error
release started (exited e) = (if started then sigterm ∷ [] else [], e)
release started (overdue e) = (if started then sigterm ∷ sigkill ∷ [] else [], some e)

abbrev pub carries_lease : Event → Bool
carries_lease e = str_eq e.kind (text "bound") || str_eq e.kind (text "renew")

-- the goroutine of GetIP: the data of the last lease
unfoldable pub last_info : List Event → Option Info → Option Info
last_info [] info = info
last_info (e ∷ es) info = last_info es (if carries_lease e then some e.data_of else info)

abbrev pub after_reap : List Signal × Option Error → Option Info → Result Error Info
after_reap (signals, some e) info = err e
after_reap (signals, none) none = err no_lease
after_reap (signals, none) (some info) = ok info

abbrev pub context : {A : Type 0} → Text → Result Error A → Result Error A
context message (ok a) = ok a
context message (err e) = err (wrapped message e)

-- GetIP
unfoldable pub get_ip : Process → Text → ClientOptions → Result Error Info
unfolding new_dhcp_client start_client reap last_info
get_ip p iface opts = do
  client ←
      context (text "failed to create DHCP client")
        (new_dhcp_client p iface (record opts { once = true }))
  events ← context (text "failed to start DHCP client") (start_client p)
  after_reap (reap true p.wait) (last_info events none)
