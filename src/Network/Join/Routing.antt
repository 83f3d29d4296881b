-- ===== src/Network/Join/Routing.antt =====
-- The routes in the answer to Join of pkg/plugin/network.go.
use docker_net_dhcp.Shared.{
  ap, sym, List, [], ◌∷◌, ◌++◌, Bool, true, false, none, some, if◌then◌else◌, ◌≡◌, ◌≢◌, refl, ◌∙◌,
  arith, append_assoc, append-nil,
}
use docker_net_dhcp.Driver.{DhcpNetworkOptions}
use docker_net_dhcp.Macgen.Derive.{is_empty-eq-false}
use docker_net_dhcp.Network.Join.{
  Route, StaticRoute, JoinResponse, static_route, default_route, add_route, add_routes,
}

-- the routes that are passed on: those with a destination that are not the kernel's
abbrev pub passed_on : List Route → List StaticRoute
passed_on [] = []
passed_on (route ∷ routes) = elim route.dst [
  | none ↦ passed_on routes
  | some dst ↦
      if route.from_kernel then passed_on routes else static_route route dst ∷ passed_on routes
]

static_routes-default_route :
    (v6 : Bool) (route : Route) (res : JoinResponse)
    → (default_route v6 route res).static_routes ≡ res.static_routes
unfolding default_route
static_routes-default_route true route res = ground arith
static_routes-default_route false route res = ground arith

abbrev added : DhcpNetworkOptions → List Route → List StaticRoute
added opts routes = if opts.skip_routes then [] else passed_on routes

static_routes-add_route :
    (opts : DhcpNetworkOptions) (v6 : Bool) (route : Route) (res : JoinResponse)
    → (add_route opts v6 route res).static_routes ≡ res.static_routes ++ added opts (route ∷ [])
unfolding add_route
static_routes-add_route opts v6 route res =
    ground (arith, append-nil res.static_routes, static_routes-default_route v6 route res)

added_cons :
    (opts : DhcpNetworkOptions) (route : Route) (routes : List Route)
    → added opts (route ∷ routes) ≡ added opts (route ∷ []) ++ added opts routes
added_cons opts route routes = ground arith

-- addRoutes appends to the static routes of the answer the routes with a destination, in their
-- order and less the kernel's, or none at all where the network skips routes.
pub static_routes-add_routes :
    (opts : DhcpNetworkOptions) (v6 : Bool) (routes : List Route) (res : JoinResponse)
    → (add_routes opts v6 routes res).static_routes
      ≡ res.static_routes ++ (if opts.skip_routes then [] else passed_on routes)
unfolding add_routes
static_routes-add_routes opts v6 [] res = ground (arith, append-nil res.static_routes)
static_routes-add_routes opts v6 (route ∷ routes) res =
    static_routes-add_routes opts v6 routes (add_route opts v6 route res)
    ∙ (ap (λ (l : List StaticRoute). l ++ added opts routes)
          (static_routes-add_route opts v6 route res)
        ∙ (append_assoc res.static_routes (added opts (route ∷ [])) (added opts routes)
            ∙ ap (λ (l : List StaticRoute). res.static_routes ++ l)
                (sym (added_cons opts route routes))))

gateway-add_route :
    (opts : DhcpNetworkOptions) (v6 : Bool) (route : Route) (res : JoinResponse)
    → res.gateway ≢ []
    → (add_route opts v6 route res).gateway ≡ res.gateway
unfolding add_route default_route
gateway-add_route opts true route res h = ground arith
gateway-add_route opts false route res h = ground (arith, is_empty-eq-false res.gateway h)

-- A gateway that the answer has already, such as the DHCP server's, is kept by the routes of either
-- family.
pub gateway-add_routes :
    (opts : DhcpNetworkOptions) (v6 : Bool) (routes : List Route) (res : JoinResponse)
    → res.gateway ≢ []
    → (add_routes opts v6 routes res).gateway ≡ res.gateway
unfolding add_routes
gateway-add_routes opts v6 [] res h = refl
gateway-add_routes opts v6 (route ∷ routes) res h =
    let one = gateway-add_route opts v6 route res h in
    gateway-add_routes opts v6 routes (add_route opts v6 route res) (λ p. h (sym one ∙ p)) ∙ one
