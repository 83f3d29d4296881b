-- ===== src/DhcpManager.antt =====
-- pkg/plugin/dhcp_manager.go: what the manager of an endpoint does with the events of its DHCP
-- client, `renew` and `processEvents`. What netlink answers is a parameter.
pub mod Renewal
pub mod Collisions
pub mod Start
pub mod Loop
pub mod Restart
mod Examples
use docker_net_dhcp.Shared.{
  ℕ, ◌+◌, List, [], ◌∷◌, ◌++◌, Bool, true, false, ◌&&◌, ◌||◌, not, Option, none, some,
  if◌then◌else◌, leb,
}
use docker_net_dhcp.Shared.Text.{Text, text, str_eq, is_empty}
use docker_net_dhcp.Plugin.{Manager}
use docker_net_dhcp.Udhcpc.{Info, Event}

-- what renew asks of the kernel
pub data NetCall : Type 0 where
  addr_del addr_add addr_replace : Text → NetCall
  route_add route_replace : Text → NetCall

-- The parsing and the comparison of addresses, whether the kernel refuses to add an address,
-- whether the manager has its handle and link, and the gateways of the default routes.
pub record Kernel : Type 0 where
  pub parse_addr : Text → Option Text
  pub parse_ip : Text → Text
  pub same_addr : Text → Text → Bool
  pub same_ip : Text → Text → Bool
  pub refuses : Text → Bool
  pub ready : Bool
  pub gateways : List Text

abbrev pub last_of : Bool → Manager → Option Text
last_of v6 m = if v6 then m.last_ipv6 else m.last_ip

abbrev pub with_last : Bool → Text → Manager → Manager
with_last v6 ip m = if v6 then record m { last_ipv6 = some ip } else record m { last_ip = some ip }

-- the change of the interface's address
unfoldable pub change_address : Kernel → Option Text → Text → List NetCall
change_address k none ip = []
change_address k (some last) ip =
    if not (k.same_addr ip last) && k.ready
    then addr_del last ∷ addr_add ip ∷ (if k.refuses ip then addr_replace ip ∷ [] else [])
    else []

abbrev pub set_gateway : Kernel → Text → List Text → List NetCall
set_gateway k gw [] = route_add gw ∷ []
set_gateway k gw (first ∷ more) = if k.same_ip gw first then [] else route_replace gw ∷ []

-- the change of the default route
unfoldable pub change_gateway : Kernel → Bool → Info → List NetCall
change_gateway k v6 info =
    if not v6 && (not (is_empty info.gateway) && k.ready)
    then set_gateway k (k.parse_ip info.gateway) k.gateways
    else []

-- renew: the manager, and what it asks of the kernel; an address that does not parse is an error
unfoldable pub renew : Kernel → Bool → Info → Manager → Manager × List NetCall
unfolding change_address change_gateway
renew k v6 info m = elim (k.parse_addr info.ip) [
  | none ↦ (m, [])
  | some ip ↦ (with_last v6 ip m, change_address k (last_of v6 m) ip ++ change_gateway k v6 info)
]

-- the state of processEvents: its counter, the manager, the calls of the kernel and the seconds of
-- its back-offs so far
pub record Progress : Type 0 where
  pub collision_count : ℕ
  pub manager : Manager
  pub calls : List NetCall
  pub sleeps : List ℕ

abbrev pub is_lease : Event → Bool
is_lease e = str_eq e.kind (text "bound") || str_eq e.kind (text "renew")

abbrev pub is_collision : Event → Bool
is_collision e = str_eq e.kind (text "collision")

-- the body of the loop for an event; the failures and any other events are only logged
unfoldable pub process_event : Kernel → Bool → Event → Progress → Progress
unfolding renew
process_event k v6 e s =
    if is_lease e
    then (let (m, calls) = renew k v6 e.data_of s.manager in
        record s { collision_count = 0; manager = m; calls = s.calls ++ calls })
    else if is_collision e
    then (let n = s.collision_count + 1 in
        record s { collision_count = n; sleeps = if leb 3 n then s.sleeps ++ n ∷ [] else s.sleeps })
    else s

-- processEvents on the events that come until the pipe is closed or the manager stopped
unfoldable pub process_events : Kernel → Bool → List Event → Progress → Progress
unfolding process_event
process_events k v6 [] s = s
process_events k v6 (e ∷ es) s = process_events k v6 es (process_event k v6 e s)
