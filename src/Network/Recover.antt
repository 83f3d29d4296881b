-- ===== src/Network/Recover.antt =====
-- The recovery of pkg/plugin/network.go when the plugin starts: Recover and resumeDHCP, with the
-- goroutines of the endpoints one after the other.
mod Examples
use docker_net_dhcp.Shared.{
  List, [], ◌∷◌, ◌++◌, Bool, true, false, ◌&&◌, ◌||◌, not, Option, none, some, if◌then◌else◌, ◌≡◌,
  refl, ◌∙◌, ap, arith, Bool-cases, inl, inr,
}
use docker_net_dhcp.Shared.Text.{has_prefix, Text, text, str_eq, str_eq_iff, is_empty, cut_prefix}
use docker_net_dhcp.Shared.Dict
use docker_net_dhcp.Shared.Dict.{Dict, get-put}
use docker_net_dhcp.Driver.{DhcpNetworkOptions}
use docker_net_dhcp.Cache.State.{EndpointState, NetworkState, or_made}
use docker_net_dhcp.Cache.Ops.{get_all}
use docker_net_dhcp.Plugin.{Plugin, Manager}

-- which paths are there, and for which endpoints the DHCP manager starts in time
pub record Host : Type 0 where
  pub exists : Text → Bool
  pub starts : Text → Bool

-- nsPath
abbrev pub ns_path : Text → Text
ns_path key = if has_prefix (text "/") key then key else text "/var/run/docker/netns/" ++ key

-- an endpoint whose network namespace is gone
abbrev pub is_gone : Host → EndpointState → Bool
is_gone h ep = not (is_empty ep.sandbox_key) && not (h.exists (ns_path ep.sandbox_key))

abbrev pub resumed_manager : EndpointState → DhcpNetworkOptions → Text → Manager
resumed_manager ep opts network_id = record {
  network_id = network_id;
  endpoint_id = ep.id;
  sandbox_key = ep.sandbox_key;
  options = opts;
  last_ip = none;
  last_ipv6 = none;
  hostname = ep.hostname;
}

-- resumeDHCP, with its goroutine
unfoldable pub resume_dhcp : Host → EndpointState → DhcpNetworkOptions → Text → Plugin → Plugin
resume_dhcp h ep opts network_id p =
    if not (is_gone h ep) && h.starts ep.id
    then record p {
      persistent_dhcp = Dict.put ep.id (resumed_manager ep opts network_id) p.persistent_dhcp;
    }
    else p

-- the loop over the endpoints of a network
unfoldable pub recover_endpoints :
    Host → DhcpNetworkOptions → Text → List EndpointState → Plugin → Plugin
unfolding resume_dhcp
recover_endpoints h opts network_id [] p = p
recover_endpoints h opts network_id (ep ∷ eps) p =
    recover_endpoints h opts network_id eps (resume_dhcp h ep opts network_id p)

-- the loop over the networks
unfoldable pub recover_networks : Host → List NetworkState → Plugin → Plugin
unfolding recover_endpoints
recover_networks h [] p = p
recover_networks h (n ∷ nets) p =
    recover_networks h nets
      (recover_endpoints h n.options n.id (Dict.values (or_made n.endpoints)) p)

-- Recover
unfoldable pub recover : Host → Plugin → Plugin
unfolding recover_networks
recover h p = recover_networks h (get_all p.cache) p

-- Recover can start a manager for the endpoint: it has no sandbox, or the path of its namespace is
-- there, which is the sandbox itself or one of that name among Docker's; and the manager starts
abbrev pub resumable : Host → EndpointState → Bool
resumable h ep =
    (is_empty ep.sandbox_key
      || h.exists (
          if has_prefix (text "/") ep.sandbox_key
          then ep.sandbox_key
          else text "/var/run/docker/netns/" ++ ep.sandbox_key))
    && h.starts ep.id

-- whether one of the endpoints has this id and is resumable
abbrev pub any_resumes : Host → Text → List EndpointState → Bool
any_resumes h e [] = false
any_resumes h e (ep ∷ eps) = str_eq ep.id e && resumable h ep || any_resumes h e eps

abbrev pub any_network : Host → Text → List NetworkState → Bool
any_network h e [] = false
any_network h e (n ∷ nets) =
    any_resumes h e (Dict.values (or_made n.endpoints)) || any_network h e nets

has-resume_dhcp :
    (h : Host) (ep : EndpointState) (opts : DhcpNetworkOptions) (n e : Text) (p : Plugin)
    → Dict.has e (resume_dhcp h ep opts n p).persistent_dhcp
      ≡ (str_eq ep.id e && resumable h ep || Dict.has e p.persistent_dhcp)
unfolding resume_dhcp Dict.has
has-resume_dhcp h ep opts n e p =
    ground
      (arith, str_eq_iff ep.id e, get-put ep.id e (resumed_manager ep opts n) p.persistent_dhcp)

or_swap : (a b c : Bool) → (a || (b || c)) ≡ ((b || a) || c)
or_swap a b c = ground arith

has-recover_endpoints :
    (h : Host) (opts : DhcpNetworkOptions) (n e : Text) (eps : List EndpointState) (p : Plugin)
    → Dict.has e (recover_endpoints h opts n eps p).persistent_dhcp
      ≡ (any_resumes h e eps || Dict.has e p.persistent_dhcp)
unfolding recover_endpoints
has-recover_endpoints h opts n e [] p = refl
has-recover_endpoints h opts n e (ep ∷ eps) p =
    has-recover_endpoints h opts n e eps (resume_dhcp h ep opts n p)
    ∙ (ap (λ (b : Bool). any_resumes h e eps || b) (has-resume_dhcp h ep opts n e p)
        ∙ or_swap (any_resumes h e eps) _ (Dict.has e p.persistent_dhcp))

has-recover_networks :
    (h : Host) (e : Text) (nets : List NetworkState) (p : Plugin)
    → Dict.has e (recover_networks h nets p).persistent_dhcp
      ≡ (any_network h e nets || Dict.has e p.persistent_dhcp)
unfolding recover_networks
has-recover_networks h e [] p = refl
has-recover_networks h e (n ∷ nets) p =
    has-recover_networks h e nets
      (recover_endpoints h n.options n.id (Dict.values (or_made n.endpoints)) p)
    ∙ (ap (λ (b : Bool). any_network h e nets || b)
          (has-recover_endpoints h n.options n.id e (Dict.values (or_made n.endpoints)) p)
        ∙ or_swap (any_network h e nets) _ (Dict.has e p.persistent_dhcp))

-- After the recovery, the plugin has a DHCP manager for an endpoint exactly if it had one before or
-- the cache has the endpoint, on some network, the path of its namespace is there, or it has no
-- sandbox, and its manager starts.
pub has-recover :
    (h : Host) (p : Plugin) (e : Text)
    → Dict.has e (recover h p).persistent_dhcp
      ≡ (any_network h e (get_all p.cache) || Dict.has e p.persistent_dhcp)
unfolding recover
has-recover h p e = has-recover_networks h e (get_all p.cache) p
