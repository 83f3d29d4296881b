-- ===== src/Boot/Examples.antt =====
-- A restart of the plugin on a small cache, and the two ways in which a signal ends its process
-- (pkg/plugin/plugin.go, cmd/net-dhcp/main.go).
use docker_net_dhcp.Shared.{
  [], ◌∷◌, true, false, ◌&&◌, not, none, some, if◌then◌else◌, ◌≡◌, ◌↔◌, refl,
}
use docker_net_dhcp.Shared.Text.{text, str_eq, cut_prefix}
use docker_net_dhcp.Shared.Dict
use docker_net_dhcp.Cache.Sample.{
  cache, net_1, ep_1, endpoint, docker_network, fine, decode_bridged, networks-IsCache,
}
use docker_net_dhcp.Cache.Ops.{get_endpoint}
use docker_net_dhcp.Cache.Reconcile.{listed, plugin_networks}
use docker_net_dhcp.Cache.Reconcile.Orphans.{is_attached}
use docker_net_dhcp.Driver.{is_dhcp_plugin, matches}
use docker_net_dhcp.Network.Recover.{Host, recover, resumable}
use docker_net_dhcp.Boot.{Setting, booted, new_plugin, run, signal, listened, closed, returned}
use docker_net_dhcp.Boot.Shutdown.{IsClosed, run_returned_iff}
use docker_net_dhcp.Errors.{Error, other}
use docker_net_dhcp.Boot.Resume.{restart_resumes}

abbrev setting : Setting
setting = record {
  client_error = none;
  readable = true;
  partial = λ doc. [];
  answer = listed (docker_network ∷ []);
  outcome = fine;
  decode_opts = decode_bridged;
}

abbrev host : Host
host = record { exists = λ path. true; starts = λ id. true }

restart_resumes_example :
    (get_endpoint net_1 ep_1 (booted setting cache.disk).cache
      ≡ (if is_attached docker_network ep_1 then some (endpoint ep_1) else none))
    × ((is_attached docker_network ep_1
          && (resumable host (endpoint ep_1)
              && not (Dict.has ep_1 (recover host (booted setting cache.disk)).persistent_dhcp)))
        ≡ false)
unfolding new_plugin plugin_networks is_dhcp_plugin get_endpoint Dict.get str_eq matches cut_prefix
    Dict.put
restart_resumes_example =
    restart_resumes setting cache.disk host cache (docker_network ∷ []) (booted setting cache.disk)
      net_1 docker_network (endpoint ep_1) refl refl networks-IsCache refl refl refl refl

-- the error of Serve once the server is closed
abbrev server_closed : Error
server_closed = other (text "http: Server closed")

run_returned_iff_example :
    (run setting cache.disk (signal ∷ listened server_closed ∷ closed none ∷ []) ≡ returned)
    ↔ IsClosed (listened server_closed ∷ closed none ∷ [])
run_returned_iff_example =
    run_returned_iff setting cache.disk (listened server_closed ∷ closed none ∷ []) refl
