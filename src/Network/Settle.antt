-- ===== src/Network/Settle.antt =====
-- The goroutine that Join of pkg/plugin/network.go starts, once the DHCP manager has started: it finds
-- the container by its endpoint, corrects the MAC address and stores the endpoint.
pub mod Healed
pub mod Found
pub mod Stored
mod Examples
use docker_net_dhcp.Shared.{
  ℕ, zero, suc, ◌+◌, List, [], ◌∷◌, ◌++◌, Bool, true, false, ◌||◌, Option, none, some,
  if◌then◌else◌,
}
use docker_net_dhcp.Shared.Text.{Text, str_eq, is_empty}
use docker_net_dhcp.Shared.Dict
use docker_net_dhcp.Shared.Dict.{Dict}
use docker_net_dhcp.Shared.Result.{Result, ok, err}
use docker_net_dhcp.Driver.{DhcpNetworkOptions}
use docker_net_dhcp.Macgen
use docker_net_dhcp.Cache.State.{EndpointState}
use docker_net_dhcp.Cache.Disk.{Outcome}
use docker_net_dhcp.Cache.Ops.{set_endpoint}
use docker_net_dhcp.Plugin.{Plugin, JoinHint, Manager, Call, link_set_mac, effective_hostname}
use docker_net_dhcp.Plugin.Events.{Settings, Container}
use docker_net_dhcp.Network.{Summary, mac_format_from_opts, veth_pair_names}
use docker_net_dhcp.Network.Identify.{Identity, unknown, container_name}
use docker_net_dhcp.Network.Join.{JoinRequest}

-- What Docker answers at each attempt; the address with which Start found the link, and whether the
-- link takes another one; whether the kernel shows the link to setupClient, which then takes what it
-- shows for m.ctrLink, and the address in m.ctrLink if not; and the outcome of the save.
pub record Later : Type 0 where
  pub container_list : ℕ → Option (List Summary)
  pub container_inspect : Text → Option Container
  pub found_mac : Text
  pub takes_mac : Bool
  pub shows_link : Bool
  pub unshown_mac : Text
  pub outcome : Outcome

-- whether a container has the endpoint on one of its networks
unfoldable pub has_endpoint : Text → Dict Settings → Bool
has_endpoint endpoint_id [] = false
has_endpoint endpoint_id ((name, settings) ∷ networks) =
    str_eq settings.endpoint_id endpoint_id || has_endpoint endpoint_id networks

-- `actualName` and `actualHostname` after a container that has the endpoint
unfoldable pub note_container : Later → Summary → Identity → Identity
note_container l c who =
    let name : Text = elim c.names [ [] ↦ who.seed_name | n ∷ names ↦ container_name c ] in
    record {
      seed_name = name;
      hostname = elim (l.container_inspect c.id) [
        | none ↦ who.hostname
        | some ctr ↦ effective_hostname ctr.id ctr.hostname name
      ];
    }

-- the loop over the containers, up to the first one with a name
unfoldable pub scan : Later → Text → List Summary → Identity → Identity
unfolding has_endpoint note_container
scan l endpoint_id [] who = who
scan l endpoint_id (c ∷ cs) who =
    let noted = if has_endpoint endpoint_id c.networks then note_container l c who else who in
    if is_empty noted.seed_name then scan l endpoint_id cs noted else noted

-- the attempts, with those left and the number of the next one
unfoldable pub actual : Later → Text → ℕ → ℕ → Identity → Identity
unfolding scan
actual l endpoint_id zero attempt who = who
actual l endpoint_id (suc left) attempt who =
    let seen : Identity = elim (l.container_list attempt) [
      | none ↦ who
      | some ctrs ↦ scan l endpoint_id ctrs who
    ] in
    let more = actual l endpoint_id left (attempt + 1) seen in
    if is_empty seen.seed_name then more else seen

-- effectiveSeed
abbrev pub effective_seed : Identity → Text
effective_seed who = if is_empty who.hostname then who.seed_name else who.hostname

-- the MAC address that the link is given, if it is corrected
unfoldable pub correction : DhcpNetworkOptions → JoinHint → Identity → Option Text
correction opts hint who =
    if is_empty who.seed_name
      || (str_eq (effective_seed who) hint.mac_seed || hint.user_specified_mac)
    then none
    else elim (Macgen.generate
        (record { seed = effective_seed who; format = mac_format_from_opts opts })) [
          | err e ↦ none
          | ok mac ↦ some mac
        ]

-- the hint as the goroutine has it in the end
unfoldable pub corrected_hint : JoinHint → Identity → JoinHint
corrected_hint hint who = if is_empty who.seed_name then hint else record hint {
  mac_seed = effective_seed who;
  seed_name = who.seed_name;
  hostname = effective_seed who;
}

-- the address of the link after an attempt to correct it
abbrev pub corrected_mac : Later → Option Text → Text → Text
corrected_mac l none mac = mac
corrected_mac l (some new) mac = if l.takes_mac then new else mac

abbrev pub ip_or_empty : Option Text → Text
ip_or_empty none = []
ip_or_empty (some ip) = ip

-- the address in m.ctrLink after setupClient
abbrev pub stored_mac : Later → Option Text → Text
stored_mac l fix = if l.shows_link then corrected_mac l fix l.found_mac else l.unshown_mac

-- the endpoint that is stored
abbrev pub settled_endpoint : Later → JoinRequest → JoinHint → Text → EndpointState
settled_endpoint l r hint mac = record {
  id = r.endpoint_id;
  sandbox_key = r.sandbox_key;
  mac_address = mac;
  ip = ip_or_empty hint.ipv4;
  ipv6 = [];
  gateway = hint.gateway;
  hostname = hint.hostname;
  seed_name = hint.seed_name;
}

-- the manager that the plugin keeps for the endpoint
abbrev pub settled_manager : JoinRequest → DhcpNetworkOptions → JoinHint → Manager
settled_manager r opts hint = record {
  network_id = r.network_id;
  endpoint_id = r.endpoint_id;
  sandbox_key = r.sandbox_key;
  options = opts;
  last_ip = hint.ipv4;
  last_ipv6 = hint.ipv6;
  hostname = hint.hostname;
}

-- the calls of the kernel for a correction
abbrev pub correction_calls : Text → Option Text → List Call
correction_calls id none = []
correction_calls id (some mac) = link_set_mac (veth_pair_names id).1 mac ∷ []

-- the goroutine as a whole, for the hint that Join has taken
unfoldable pub settle : Later → JoinRequest → DhcpNetworkOptions → JoinHint → Plugin → Plugin
unfolding actual corrected_hint correction
settle l r opts hint p =
    let who = actual l r.endpoint_id 10 0 unknown in
    let hint' = corrected_hint hint who in
    let fix = correction opts hint who in
    let ep = settled_endpoint l r hint' (stored_mac l fix) in
    record p {
      calls = p.calls ++ correction_calls r.endpoint_id fix;
      persistent_dhcp = Dict.put r.endpoint_id (settled_manager r opts hint') p.persistent_dhcp;
      cache = (set_endpoint l.outcome r.network_id ep p.cache).0;
    }
