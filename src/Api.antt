-- ===== src/Api.antt =====
-- The HTTP handlers of pkg/plugin/endpoints.go over pkg/util/json.go: from the body of a request to
-- the operation, and from its result to the respond. A body is the document that it starts with, or
-- none; the wording of an error's message is not modelled. Join's goroutine is in Network/Settle.
pub mod Answer
pub mod Request
pub mod Status
mod Examples
use docker_net_dhcp.Shared.{
  ℕ, zero, suc, [], ◌∷◌, List, Bool, true, false, Option, none, some, if◌then◌else◌,
}
use docker_net_dhcp.Shared.Text.{Text, text, is_empty}
use docker_net_dhcp.Shared.Dict.{Dict}
use docker_net_dhcp.Shared.Result.{Result, ok, err}
use docker_net_dhcp.Driver.{DhcpNetworkOptions, pos}
use docker_net_dhcp.Json.{
  Json, Items, Fields, object, array, field, string, number, end, last, item, omit_empty,
}
use docker_net_dhcp.Errors.{Error, wrapped, other, err_to_status}
use docker_net_dhcp.Plugin.{Plugin}
use docker_net_dhcp.Cache.State.{no_options}
use docker_net_dhcp.Network.{
  World, EndpointRequest, CreateNetworkRequest, create_network, remove_network, remove_endpoint,
  leave, net_options, veth_pair_names,
}
use docker_net_dhcp.Network.Identify.{CreateEndpointRequest, EndpointInterface}
use docker_net_dhcp.Network.Create.{create_endpoint}
use docker_net_dhcp.Network.Join.{JoinRequest, JoinResponse, StaticRoute, Routes, join}
use docker_net_dhcp.Api.Answer.{
  Response, plain, json_response, with_request, nothing, result_of, encode_created, encode_join,
  map_result,
}
use docker_net_dhcp.Api.Request.{
  decode_endpoint_request, decode_join_request, decode_create_endpoint_request,
  decode_create_network_request, decode_network_id,
}

-- EndpointOperInfo, after the options, whose error is ignored; `hardware_addr` is the address of a
-- link as netlink shows it
abbrev pub oper_info_with :
    World → (Text → Text) → EndpointRequest → Plugin × Text → Plugin × Result Error Json
oper_info_with w hardware_addr r (p, bridge) =
    let host = (veth_pair_names r.endpoint_id).0 in
    elim (w.link_by_name host) [
      | err e ↦ (p, err e)
      | ok kind ↦ (
        p,
        ok (
            object (
              field (text "Value")
                (object (
                  field (text "bridge") (string bridge) (
                    field (text "veth_host") (string host)
                      (field (text "veth_host_mac") (string (hardware_addr host)) end))))
                end)),
      )
    ]

abbrev pub bridge_of : Plugin × Result Error DhcpNetworkOptions → Plugin × Text
bridge_of (p, ok opts) = (p, opts.bridge)
bridge_of (p, err e) = (p, [])

unfoldable pub endpoint_oper_info :
    World → (Text → Text) → EndpointRequest → Plugin → Plugin × Result Error Json
unfolding net_options
endpoint_oper_info w hardware_addr r p =
    oper_info_with w hardware_addr r (bridge_of (net_options w r.network_id p))

-- the paths of the mux
pub data Handler : Type 0 where
  health get_capabilities create_network_path delete_network_path create_endpoint_path : Handler
  endpoint_oper_info_path delete_endpoint_path join_path leave_path : Handler

-- what netlink shows of the routes and of the addresses of links, and the generic options
pub record Shown : Type 0 where
  pub routes : Routes
  pub addresses : Text → Text
  pub texts : Json → Dict Text

-- the operations, whose results are turned into documents
abbrev pub creating : World → Shown → CreateNetworkRequest → Plugin → Plugin × Result Error Json
creating w n r p = (let (q, e) = create_network w r p in (q, result_of e))

abbrev pub deleting : World → Shown → Text → Plugin → Plugin × Result Error Json
deleting w n r p = (remove_network w r p, ok nothing)

abbrev pub attaching : World → Shown → CreateEndpointRequest → Plugin → Plugin × Result Error Json
attaching w n r p = map_result encode_created (create_endpoint w r p)

abbrev pub detaching : World → Shown → EndpointRequest → Plugin → Plugin × Result Error Json
detaching w n r p = (remove_endpoint w r p, ok nothing)

abbrev pub answering : World → Shown → JoinRequest → Plugin → Plugin × Result Error Json
answering w n r p = map_result encode_join (join w n.routes r p)

abbrev pub leaving : World → Shown → EndpointRequest → Plugin → Plugin × Result Error Json
leaving w n r p = (leave w r p, ok nothing)

unfoldable pub api_health : Plugin → Plugin × Response
api_health p = (
  p,
  record {
    status = 200;
    content_type = text "text/plain; charset=utf-8";
    body = plain (text "OK");
  },
)

unfoldable pub api_get_capabilities : Plugin → Plugin × Response
unfolding json_response
api_get_capabilities p =
    (p, json_response (object (field (text "Scope") (string (text "local")) end)))

unfoldable pub api_create_network : World → Shown → Option Json → Plugin → Plugin × Response
unfolding with_request
api_create_network w n body p =
    with_request (decode_create_network_request n.texts) body (creating w n) p

unfoldable pub api_delete_network : World → Shown → Option Json → Plugin → Plugin × Response
unfolding with_request
api_delete_network w n body p = with_request decode_network_id body (deleting w n) p

unfoldable pub api_create_endpoint : World → Shown → Option Json → Plugin → Plugin × Response
unfolding with_request
api_create_endpoint w n body p = with_request decode_create_endpoint_request body (attaching w n) p

unfoldable pub api_endpoint_oper_info : World → Shown → Option Json → Plugin → Plugin × Response
unfolding with_request endpoint_oper_info
api_endpoint_oper_info w n body p =
    with_request decode_endpoint_request body (endpoint_oper_info w n.addresses) p

unfoldable pub api_delete_endpoint : World → Shown → Option Json → Plugin → Plugin × Response
unfolding with_request
api_delete_endpoint w n body p = with_request decode_endpoint_request body (detaching w n) p

unfoldable pub api_join : World → Shown → Option Json → Plugin → Plugin × Response
unfolding with_request
api_join w n body p = with_request decode_join_request body (answering w n) p

unfoldable pub api_leave : World → Shown → Option Json → Plugin → Plugin × Response
unfolding with_request
api_leave w n body p = with_request decode_endpoint_request body (leaving w n) p

-- the handler of a path
unfoldable pub serve : World → Shown → Handler → Option Json → Plugin → Plugin × Response
unfolding api_health api_get_capabilities api_create_network api_delete_network api_create_endpoint
    api_endpoint_oper_info api_delete_endpoint api_join api_leave
serve w n health body p = api_health p
serve w n get_capabilities body p = api_get_capabilities p
serve w n create_network_path body p = api_create_network w n body p
serve w n delete_network_path body p = api_delete_network w n body p
serve w n create_endpoint_path body p = api_create_endpoint w n body p
serve w n endpoint_oper_info_path body p = api_endpoint_oper_info w n body p
serve w n delete_endpoint_path body p = api_delete_endpoint w n body p
serve w n join_path body p = api_join w n body p
serve w n leave_path body p = api_leave w n body p
