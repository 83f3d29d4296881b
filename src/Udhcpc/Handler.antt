-- ===== src/Udhcpc/Handler.antt =====
-- cmd/udhcpc-handler/main.go: the program that udhcpc runs for each of its events. What the machine
-- and the network do while it runs is a `Machine`; an environment variable that is missing is empty.
pub mod Frame
pub mod Arp
pub mod Run
pub mod Reach
mod Examples
use docker_net_dhcp.Shared.{
  ℕ, zero, suc, ◌+◌, ◌*◌, List, [], ◌∷◌, ◌++◌, Bool, true, false, not, ◌&&◌, ◌||◌, ◌==◌, ltb, leb,
  Option, none, some, if◌then◌else◌, length, take, get_or, slice,
}
use docker_net_dhcp.Shared.Text.{Text, text, str_eq, is_empty, has_prefix}
use docker_net_dhcp.Shared.Dict
use docker_net_dhcp.Shared.Dict.{Dict}
use docker_net_dhcp.Udhcpc.Handler.Frame.{probe_frame, garp_frame, any_conflict}
use docker_net_dhcp.Udhcpc.{Event, Info, no_info}

-- a network that net.ParseCIDR gives: its text, and its address in bytes
pub record Prefix : Type 0 where
  pub shown : Text
  pub address : List ℕ

-- The answers to net.InterfaceByName, with the hardware address, to net.ParseIP with To4 and to
-- net.ParseCIDR, whether a packet connection on a network that Go knows can be opened, what is
-- received until the deadline, over ARP and with its sender over ICMPv6, whether the output can be
-- written, and how many frames the goroutine of sendGARP sends before the program ends.
pub record Machine : Type 0 where
  pub hardware_addr : Text → Option (List ℕ)
  pub to4 : Text → Option (List ℕ)
  pub parse_cidr : Text → Option Prefix
  pub opens : Text → Text → Bool
  pub frames : List (List ℕ)
  pub packets : List (Option (List ℕ) × List ℕ)
  pub writable : Bool
  pub announced : ℕ

abbrev pub getenv : Dict Text → Text → Text
getenv env k = elim (Dict.get k env) [ none ↦ [] | some v ↦ v ]

-- the names of networks that net.ListenPacket takes; any other name is an error
unfoldable pub is_packet_network : Text → Bool
is_packet_network name =
    str_eq name (text "udp")
    || str_eq name (text "udp4")
    || str_eq name (text "udp6")
    || str_eq name (text "unixgram")
    || has_prefix (text "ip:") name
    || has_prefix (text "ip4:") name
    || has_prefix (text "ip6:") name

-- net.ListenPacket gives a connection
unfoldable pub listens : Machine → Text → Text → Bool
unfolding is_packet_network
listens m network address = is_packet_network network && m.opens network address

-- hasConflict: the frames that it sends, and its answer
unfoldable pub has_conflict : Machine → Text → Text → List (List ℕ) × Bool
unfolding listens any_conflict probe_frame
has_conflict m iface target = elim (m.hardware_addr iface) [
  | none ↦ ([], false)
  | some mac ↦ elim (m.to4 target) [
    | none ↦ ([], false)
    | some ip ↦
        if listens m (text "arp") iface && not (ltb (length mac) 6)
        then (let probe = probe_frame mac ip in
            (probe ∷ probe ∷ probe ∷ [], any_conflict mac ip m.frames))
        else ([], false)
  ]
]

-- sendGARP: the frames that it sends if it comes to its end
unfoldable pub send_garp : Machine → Text → Text → List (List ℕ)
unfolding listens garp_frame
send_garp m iface target = elim (m.hardware_addr iface) [
  | none ↦ []
  | some mac ↦ elim (m.to4 target) [
    | none ↦ []
    | some ip ↦
        if listens m (text "arp") iface && not (ltb (length mac) 6)
        then (let garp = garp_frame mac ip in garp ∷ garp ∷ [])
        else []
  ]
]

-- a neighbor advertisement from the address
unfoldable pub is_advertisement : List ℕ → Option (List ℕ) × List ℕ → Bool
is_advertisement ip (none, buf) = false
is_advertisement ip (some sender, buf) =
    leb 24 (length buf) && ((get_or buf 0 0 == 136) && str_eq sender ip)

unfoldable pub any_advertisement : List ℕ → List (Option (List ℕ) × List ℕ) → Bool
unfolding is_advertisement
any_advertisement ip [] = false
any_advertisement ip (p ∷ more) =
    let rest = any_advertisement ip more in if is_advertisement ip p then true else rest

-- hasV6Conflict
unfoldable pub has_v6_conflict : Machine → Text → List ℕ → Bool
unfolding listens any_advertisement
has_v6_conflict m iface ip =
    listens m (text "ip6:ipv6-icmp") iface && any_advertisement ip m.packets

-- what a run does: the event that it writes, if any, its exit code and the frames that it sends
pub record Output : Type 0 where
  pub written : Option Event
  pub code : ℕ
  pub sent : List (List ℕ)

-- the end of main, where a failing Encode is fatal
abbrev pub encoded : Machine → Event → List (List ℕ) → Output
encoded m e sent =
    if m.writable
    then record { written = some e; code = 0; sent = sent }
    else record { written = none; code = 1; sent = sent }

abbrev pub collision : Machine → Info → List (List ℕ) → Output
collision m info sent = record {
  written = if m.writable then some (record { kind = text "collision"; data_of = info }) else none;
  code = 1;
  sent = sent;
}

-- whether a lease's address is to be checked
abbrev pub is_checked : Dict Text → Text → Bool
is_checked env kind =
    str_eq kind (text "bound")
    && (not (is_empty (getenv env (text "interface")))
        && is_empty (getenv env (text "DISABLE_ARP_CHECK")))

-- a lease of an IPv6 address; one that does not parse is the nil network, whose text is "<nil>" and
-- whose address cannot be read: the program panics, with exit code 2
unfoldable pub v6_lease : Machine → Dict Text → Text → Text → Output
unfolding has_v6_conflict
v6_lease m env kind v6 = elim (m.parse_cidr (v6 ++ text "/128")) [
  | none ↦
      if is_checked env kind
      then record { written = none; code = 2; sent = [] }
      else encoded m (record { kind = kind; data_of = record no_info { ip = text "<nil>" } }) []
  | some net ↦
      let info = record no_info { ip = net.shown } in
      if is_checked env kind && has_v6_conflict m (getenv env (text "interface")) net.address
      then collision m info []
      else encoded m (record { kind = kind; data_of = info }) []
]

abbrev pub v4_info : Dict Text → Info
v4_info env =
    let mask = getenv env (text "mask") in
    record {
      ip =
          getenv env (text "ip") ++ (b'/' ∷ (if is_empty mask then text "255.255.255.0" else mask));
      gateway = getenv env (text "router");
      domain = getenv env (text "domain");
    }

unfoldable pub v4_lease : Machine → Dict Text → Text → Output
unfolding has_conflict send_garp
v4_lease m env kind =
    let ip = getenv env (text "ip") in
    let iface = getenv env (text "interface") in
    let info = v4_info env in
    let checked = is_checked env kind && not (is_empty ip) in
    let (probes, conflict) = if checked then has_conflict m iface ip else ([], false) in
    if conflict
    then collision m info probes
    else (let garps =
          if not (is_empty ip) && not (is_empty iface)
          then take m.announced (send_garp m iface ip)
          else [] in
        encoded m (record { kind = kind; data_of = info }) (probes ++ garps))

abbrev pub is_plain : Text → Bool
is_plain kind =
    str_eq kind (text "deconfig")
    || str_eq kind (text "leasefail")
    || str_eq kind (text "nak")
    || str_eq kind (text "collision")

-- the switch of main on the type of the event
unfoldable pub handle : Machine → Dict Text → Text → Output
unfolding v6_lease v4_lease
handle m env kind =
    if str_eq kind (text "bound") || str_eq kind (text "renew")
    then elim (Dict.get (text "ipv6") env) [
      | some v6 ↦ v6_lease m env kind v6
      | none ↦ v4_lease m env kind
    ]
    else if is_plain kind
    then encoded m (record { kind = kind; data_of = no_info }) []
    else record { written = none; code = 0; sent = [] }

-- main, with the arguments that follow the program's name
unfoldable pub main : Machine → Dict Text → List Text → Output
unfolding handle
main m env (kind ∷ []) = handle m env kind
main m env _ = record { written = none; code = 1; sent = [] }
