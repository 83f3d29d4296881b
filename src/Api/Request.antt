-- ===== src/Api/Request.antt =====
-- The requests of pkg/plugin/endpoints.go as ParseJSONBody (pkg/util/json.go) reads them: a field that
-- the request does not have is an error. Options may have any values; what mapstructure makes of
-- those that stand under the generic key of CreateNetwork is a parameter, `texts`.
use docker_net_dhcp.Shared.{List, [], ◌∷◌, Option, none, some, if◌then◌else◌}
use docker_net_dhcp.Shared.Text.{Text, text, str_eq}
use docker_net_dhcp.Shared.Dict.{Dict}
use docker_net_dhcp.Json.{Json, Items, Fields, null, object, array, field, end, last, item}
use docker_net_dhcp.Json.Decode.{
  same_name, decode_string, decode_object, decode_fields, decode_map, with_value,
}
use docker_net_dhcp.Network.{EndpointRequest, CreateNetworkRequest}
use docker_net_dhcp.Network.Identify.{CreateEndpointRequest, EndpointInterface}
use docker_net_dhcp.Network.Join.{JoinRequest}

-- a value of type map[string]interface{}
abbrev any_map : {A : Type 0} → Json → A → Option A
any_map null a = some a
any_map (object fs) a = some a
any_map _ a = none

unfoldable pub endpoint_request_field : Text → Json → EndpointRequest → Option EndpointRequest
unfolding same_name decode_string
endpoint_request_field k v r =
    if same_name k (text "NetworkID")
    then with_value (decode_string v r.network_id) (λ s. record r { network_id = s })
    else if same_name k (text "EndpointID")
    then with_value (decode_string v r.endpoint_id) (λ s. record r { endpoint_id = s })
    else none

-- InfoRequest, DeleteEndpointRequest and LeaveRequest
unfoldable pub decode_endpoint_request : Json → Option EndpointRequest
unfolding decode_object endpoint_request_field
decode_endpoint_request doc =
    decode_object endpoint_request_field doc (record { network_id = []; endpoint_id = [] })

unfoldable pub network_id_field : Text → Json → Text → Option Text
unfolding same_name decode_string
network_id_field k v id = if same_name k (text "NetworkID") then decode_string v id else none

-- DeleteNetworkRequest
unfoldable pub decode_network_id : Json → Option Text
unfolding decode_object network_id_field
decode_network_id doc = decode_object network_id_field doc []

unfoldable pub join_request_field : Text → Json → JoinRequest → Option JoinRequest
unfolding same_name decode_string
join_request_field k v r =
    if same_name k (text "NetworkID")
    then with_value (decode_string v r.network_id) (λ s. record r { network_id = s })
    else if same_name k (text "EndpointID")
    then with_value (decode_string v r.endpoint_id) (λ s. record r { endpoint_id = s })
    else if same_name k (text "SandboxKey")
    then with_value (decode_string v r.sandbox_key) (λ s. record r { sandbox_key = s })
    else if same_name k (text "Options")
    then any_map v r
    else none

unfoldable pub decode_join_request : Json → Option JoinRequest
unfolding decode_object join_request_field
decode_join_request doc =
    decode_object join_request_field doc
      (record { network_id = []; endpoint_id = []; sandbox_key = [] })

unfoldable pub interface_field : Text → Json → EndpointInterface → Option EndpointInterface
unfolding same_name decode_string
interface_field k v i =
    if same_name k (text "Address")
    then with_value (decode_string v i.address) (λ s. record i { address = s })
    else if same_name k (text "AddressIPv6")
    then with_value (decode_string v i.address_ipv6) (λ s. record i { address_ipv6 = s })
    else if same_name k (text "MacAddress")
    then with_value (decode_string v i.mac_address) (λ s. record i { mac_address = s })
    else none

abbrev pub no_interface : EndpointInterface
no_interface = record { address = []; address_ipv6 = []; mac_address = [] }

-- a pointer to an interface: `null` makes it nil
unfoldable pub decode_interface :
    Json → Option EndpointInterface → Option (Option EndpointInterface)
unfolding decode_fields interface_field
decode_interface null i = some none
decode_interface (object fs) none = with_value (decode_fields interface_field fs no_interface) some
decode_interface (object fs) (some i) = with_value (decode_fields interface_field fs i) some
decode_interface _ i = none

unfoldable pub create_endpoint_field :
    Text → Json → CreateEndpointRequest → Option CreateEndpointRequest
unfolding same_name decode_string decode_interface
create_endpoint_field k v r =
    if same_name k (text "NetworkID")
    then with_value (decode_string v r.network_id) (λ s. record r { network_id = s })
    else if same_name k (text "EndpointID")
    then with_value (decode_string v r.endpoint_id) (λ s. record r { endpoint_id = s })
    else if same_name k (text "Interface")
    then with_value (decode_interface v r.interface) (λ i. record r { interface = i })
    else if same_name k (text "Options")
    then any_map v r
    else none

unfoldable pub decode_create_endpoint_request : Json → Option CreateEndpointRequest
unfolding decode_object create_endpoint_field
decode_create_endpoint_request doc =
    decode_object create_endpoint_field doc
      (record { network_id = []; endpoint_id = []; interface = none })

-- util.OptionsKeyGeneric
abbrev pub generic_key : Text
generic_key = text "com.docker.network.generic"

-- the options under the generic key, as `texts` gives them to the decoder of the options
abbrev pub generic_in : (Json → Dict Text) → Fields → Dict Text → Dict Text
generic_in texts end m = m
generic_in texts (field k v fs) m =
    generic_in texts fs (if str_eq k generic_key then texts v else m)

unfoldable pub decode_options_map : (Json → Dict Text) → Json → Dict Text → Option (Dict Text)
decode_options_map texts null m = some []
decode_options_map texts (object fs) m = some (generic_in texts fs m)
decode_options_map texts _ m = none

-- IPv4Data, of which CreateNetwork reads nothing
pub record Ipv4Data : Type 0 where
  pub address_space : Text
  pub pool : Text
  pub gateway : Text
  pub aux_addresses : Option (Dict Text)

unfoldable pub ipam_field : Text → Json → Ipv4Data → Option Ipv4Data
unfolding same_name decode_string decode_map
ipam_field k v d =
    if same_name k (text "AddressSpace")
    then with_value (decode_string v d.address_space) (λ s. record d { address_space = s })
    else if same_name k (text "Pool")
    then with_value (decode_string v d.pool) (λ s. record d { pool = s })
    else if same_name k (text "Gateway")
    then with_value (decode_string v d.gateway) (λ s. record d { gateway = s })
    else if same_name k (text "AuxAddresses")
    then with_value (decode_map decode_string [] v d.aux_addresses)
        (λ m. record d { aux_addresses = m })
    else none

abbrev pub no_ipam : Ipv4Data
no_ipam = record { address_space = []; pool = []; gateway = []; aux_addresses = none }

unfoldable pub decode_ipam_items : Items → Option (List Ipv4Data)
unfolding decode_object ipam_field
decode_ipam_items last = some []
decode_ipam_items (item v more) =
    let rest = decode_ipam_items more in
    elim (decode_object ipam_field v no_ipam) [
      | none ↦ none
      | some d ↦ with_value rest (λ ds. d ∷ ds)
    ]

unfoldable pub decode_ipam : Json → Option (List Ipv4Data)
unfolding decode_ipam_items
decode_ipam null = some []
decode_ipam (array items) = decode_ipam_items items
decode_ipam _ = none

unfoldable pub create_network_field :
    (Json → Dict Text) → Text → Json → CreateNetworkRequest → Option CreateNetworkRequest
unfolding same_name decode_string decode_options_map decode_ipam
create_network_field texts k v r =
    if same_name k (text "NetworkID")
    then with_value (decode_string v r.network_id) (λ s. record r { network_id = s })
    else if same_name k (text "Options")
    then with_value (decode_options_map texts v r.generic) (λ m. record r { generic = m })
    else if same_name k (text "IPv4Data")
    then with_value (decode_ipam v) (λ read. r)
    else if same_name k (text "IPv6Data")
    then with_value (decode_ipam v) (λ read. r)
    else none

unfoldable pub decode_create_network_request :
    (Json → Dict Text) → Json → Option CreateNetworkRequest
unfolding decode_object create_network_field
decode_create_network_request texts doc =
    decode_object (create_network_field texts) doc (record { network_id = []; generic = [] })
