-- ===== src/Api/Examples.antt =====
-- Requests to the handlers of pkg/plugin/endpoints.go.
use docker_net_dhcp.Shared.{[], some, ◌≡◌, refl}
use docker_net_dhcp.Shared.Text.{text, str_eq}
use docker_net_dhcp.Json.{Json, object, field, string, number, end}
use docker_net_dhcp.Driver.{pos}
use docker_net_dhcp.Cache.Sample.{net_1}
use docker_net_dhcp.Network.Create.Sample.{small, serving}
use docker_net_dhcp.Api.Answer.{with_request, json_err_response}
use docker_net_dhcp.Api.{Shown, join_path, leave_path, serve, api_leave}
use docker_net_dhcp.Api.Request.{decode_endpoint_request}
use docker_net_dhcp.Api.Status.{Answers, serve-Answers}

abbrev netlink_shown : Shown
netlink_shown = record { routes = λ bridge v6. []; addresses = λ link. []; texts = λ doc. [] }

-- a request with a field that Leave does not know
abbrev unknown_field : Json
unknown_field =
    object
      (field (text "EndpointID") (string (text "ep1")) (field (text "Force") (number (pos 1)) end))

-- a Join for an endpoint that has no hint
abbrev unhinted : Json
unhinted =
    object (
      field (text "NetworkID") (string net_1) (field (text "EndpointID") (string (text "ep9")) end))

serve-Answers_example :
    Answers serving netlink_shown small join_path
      (some unhinted)
      (serve serving netlink_shown join_path (some unhinted) small)
serve-Answers_example = serve-Answers serving netlink_shown small join_path (some unhinted)

refused : (serve serving netlink_shown leave_path (some unknown_field) small).1.status ≡ 400
unfolding serve api_leave with_request json_err_response decode_endpoint_request str_eq
refused = refl
