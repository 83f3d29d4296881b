-- ===== src/Api/Answer.antt =====
-- The answers of the HTTP handlers (pkg/util/json.go): their status and body, what becomes of a request
-- whose body cannot be parsed, and the documents of pkg/plugin/endpoints.go.
use docker_net_dhcp.Shared.{ℕ, zero, suc, List, [], ◌∷◌, Option, none, some}
use docker_net_dhcp.Shared.Text.{Text, text}
use docker_net_dhcp.Shared.Result.{Result, ok, err}
use docker_net_dhcp.Driver.{pos}
use docker_net_dhcp.Json.{
  Json, Items, Fields, object, array, field, string, number, end, last, item, omit_empty,
}
use docker_net_dhcp.Errors.{Error, wrapped, other, err_to_status}
use docker_net_dhcp.Plugin.{Plugin}
use docker_net_dhcp.Network.Identify.{EndpointInterface}
use docker_net_dhcp.Network.Join.{JoinResponse, StaticRoute}

-- what is sent back: the message of an error stands for `{"Err": message}`
pub data Body : Type 0 where
  document : Json → Body
  failure : Error → Body
  plain : Text → Body

pub record Response : Type 0 where
  pub status : ℕ
  pub content_type : Text
  pub body : Body

-- JSONResponse with http.StatusOK, of a value that can be encoded
unfoldable pub json_response : Json → Response
json_response doc = record {
  status = 200;
  content_type = text "application/json";
  body = document doc;
}

-- JSONErrResponse; status 0 is the status of the error
unfoldable pub json_err_response : Error → ℕ → Response
json_err_response e status = record {
  status = elim status [ zero ↦ err_to_status e | suc n ↦ suc n ];
  content_type = text "application/problem+json";
  body = failure e;
}

abbrev pub respond : Result Error Json → Response
respond (ok doc) = json_response doc
respond (err e) = json_err_response e 0

abbrev pub parsed : {R : Type 0} → (Json → Option R) → Option Json → Option R
parsed decode none = none
parsed decode (some doc) = decode doc

-- ParseJSONBody, and what a handler does of a request that it could parse
unfoldable pub with_request :
    {R : Type 0}
    → (Json → Option R)
    → Option Json
    → (R → Plugin → Plugin × Result Error Json)
    → Plugin
    → Plugin × Response
unfolding json_response json_err_response
with_request decode body operation p = elim (parsed decode body) [
  | none ↦ (p, json_err_response (wrapped (text "failed to parse request body") (other [])) 400)
  | some r ↦ let (q, result) = operation r p in (q, respond result)
]

abbrev pub nothing : Json
nothing = object end

-- an error if there is one, else the empty map
abbrev pub result_of : Option Error → Result Error Json
result_of none = ok nothing
result_of (some e) = err e

unfoldable pub encode_interface : EndpointInterface → Fields
encode_interface i = omit_empty (text "Address") i.address (
    omit_empty (text "AddressIPv6") i.address_ipv6
      (omit_empty (text "MacAddress") i.mac_address end))

-- CreateEndpointResponse, whose interface is a pointer that is left out if it is nil
unfoldable pub encode_created : Option EndpointInterface → Json
unfolding encode_interface
encode_created none = object end
encode_created (some i) = object (field (text "Interface") (object (encode_interface i)) end)

abbrev pub encode_routes : List StaticRoute → Items
encode_routes [] = last
encode_routes (r ∷ routes) =
    item
      (object (
        field (text "Destination") (string r.destination) (
          field (text "NextHop") (string r.next_hop)
            (field (text "RouteType") (number (pos r.route_type)) end))))
      (encode_routes routes)

abbrev pub omit_no_routes : List StaticRoute → Fields
omit_no_routes [] = end
omit_no_routes (r ∷ routes) = field (text "StaticRoutes") (array (encode_routes (r ∷ routes))) end

-- JoinResponse; a struct such as InterfaceName is never empty for `omitempty`
unfoldable pub encode_join : JoinResponse → Json
encode_join res = object (
    field (text "InterfaceName")
      (object (
        field (text "SrcName") (string res.src_name)
          (field (text "DstPrefix") (string res.dst_prefix) end)))
      (omit_empty (text "Gateway") res.gateway
        (omit_empty (text "GatewayIPv6") res.gateway_ipv6 (omit_no_routes res.static_routes))))

abbrev pub map_result :
    {A : Type 0} → (A → Json) → Plugin × Result Error A → Plugin × Result Error Json
map_result encode (p, ok a) = (p, ok (encode a))
map_result encode (p, err e) = (p, err e)
