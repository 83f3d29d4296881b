-- ===== src/Network/Join.antt =====
-- Join of pkg/plugin/network.go: its answer, with the routes of the bridge, and what its goroutine
-- leaves in the plugin once the DHCP manager has started.
pub mod Hints
pub mod Leased
pub mod Once
pub mod Routing
mod Examples
use docker_net_dhcp.Shared.{
  ℕ, List, [], ◌∷◌, ◌++◌, Bool, true, false, ◌&&◌, ◌||◌, not, Option, none, some, if◌then◌else◌,
}
use docker_net_dhcp.Shared.Text.{Text, text, str_eq, is_empty}
use docker_net_dhcp.Shared.Dict
use docker_net_dhcp.Shared.Result.{Result, ok, err}
use docker_net_dhcp.Driver.{DhcpNetworkOptions}
use docker_net_dhcp.Cache.State.{EndpointState}
use docker_net_dhcp.Cache.Ops.{set_endpoint}
use docker_net_dhcp.Errors.{Error, no_hint}
use docker_net_dhcp.Plugin.{Plugin, JoinHint, Manager}
use docker_net_dhcp.Network.{World, net_options, veth_pair_names}

-- netlink.Route, as far as the plugin reads it; the texts are what `String` prints
pub record Route : Type 0 where
  pub dst : Option Text
  pub gw : Option Text
  pub from_kernel : Bool

pub record StaticRoute : Type 0 where
  pub destination : Text
  pub next_hop : Text
  pub route_type : ℕ

pub record JoinRequest : Type 0 where
  pub network_id : Text
  pub endpoint_id : Text
  pub sandbox_key : Text

pub record JoinResponse : Type 0 where
  pub src_name : Text
  pub dst_prefix : Text
  pub gateway : Text
  pub gateway_ipv6 : Text
  pub static_routes : List StaticRoute

-- String() of a net.IP; of a nil one it is "<nil>"
abbrev pub ip_text : Option Text → Text
ip_text none = text "<nil>"
ip_text (some ip) = ip

-- a default route gives the gateway of its family, if there is none yet
unfoldable pub default_route : Bool → Route → JoinResponse → JoinResponse
default_route true route res =
    if is_empty res.gateway_ipv6 then record res { gateway_ipv6 = ip_text route.gw } else res
default_route false route res =
    if is_empty res.gateway then record res { gateway = ip_text route.gw } else res

-- a route with a destination, which is passed on unless it is the kernel's
abbrev pub static_route : Route → Text → StaticRoute
static_route route dst = record {
  destination = dst;
  next_hop = ip_text route.gw;
  route_type = elim route.gw [ none ↦ 1 | some ip ↦ 0 ];
}

-- one round of the loop of addRoutes
unfoldable pub add_route : DhcpNetworkOptions → Bool → Route → JoinResponse → JoinResponse
unfolding default_route
add_route opts v6 route res = elim route.dst [
  | none ↦ default_route v6 route res
  | some dst ↦
      if opts.skip_routes || route.from_kernel
      then res
      else record res { static_routes = res.static_routes ++ static_route route dst ∷ [] }
]

-- addRoutes, on the routes that the kernel lists; where it lists none for an error, nothing changes
unfoldable pub add_routes : DhcpNetworkOptions → Bool → List Route → JoinResponse → JoinResponse
unfolding add_route
add_routes opts v6 [] res = res
add_routes opts v6 (route ∷ routes) res = add_routes opts v6 routes (add_route opts v6 route res)

-- the routes of a link by its family
abbrev pub Routes : Type 0
Routes = Text → Bool → List Route

-- the routes of the bridge, for the families of the network
unfoldable pub bridge_routes : World → Routes → DhcpNetworkOptions → JoinResponse → JoinResponse
unfolding add_routes
bridge_routes w routes opts res = elim (w.link_by_name opts.bridge) [
  | err e ↦ res
  | ok kind ↦
      let res4 = add_routes opts false (routes opts.bridge false) res in
      if opts.ipv6 then add_routes opts true (routes opts.bridge true) res4 else res4
]

abbrev pub first_response : JoinRequest → JoinHint → JoinResponse
first_response r hint = record {
  src_name = (veth_pair_names r.endpoint_id).1;
  dst_prefix = text "eth";
  gateway = hint.gateway;
  gateway_ipv6 = [];
  static_routes = [];
}

-- what follows the options of the network
unfoldable pub join_with :
    World
    → Routes
    → JoinRequest
    → Plugin × Result Error DhcpNetworkOptions
    → Plugin × Result Error JoinResponse
unfolding bridge_routes
join_with w routes r (p, err e) = (p, err e)
join_with w routes r (p, ok opts) = elim (Dict.get r.endpoint_id p.join_hints) [
  | none ↦ (p, err no_hint)
  | some hint ↦ (
    record p { join_hints = Dict.del r.endpoint_id p.join_hints },
    ok (bridge_routes w routes opts (first_response r hint)),
  )
]

-- Join, up to its answer
unfoldable pub join : World → Routes → JoinRequest → Plugin → Plugin × Result Error JoinResponse
unfolding join_with net_options
join w routes r p = join_with w routes r (net_options w r.network_id p)
