-- ===== src/Cache/Json.antt =====
-- The document that `json.MarshalIndent` writes of the cache's networks (pkg/plugin/cache.go), by
-- the `json` tags of the records.
use docker_net_dhcp.Shared.Text.{text}
use docker_net_dhcp.Shared.Dict.{Dict}
use docker_net_dhcp.Json.{
  Json, end, field, boolean, number, string, time, object, omit_empty, omit_empty_map, encode_dict,
}
use docker_net_dhcp.Driver.{DhcpNetworkOptions}
use docker_net_dhcp.Cache.State.{EndpointState, ContainerMetadata, NetworkState}

unfoldable pub encode_endpoint : EndpointState → Json
unfolding omit_empty
encode_endpoint ep = object (
    field (text "id") (string ep.id) (
      field (text "sandbox_key") (string ep.sandbox_key) (
        field (text "mac_address") (string ep.mac_address) (
          field (text "ip") (string ep.ip) (
            omit_empty (text "ipv6") ep.ipv6 (
              field (text "gateway") (string ep.gateway) (
                omit_empty (text "hostname") ep.hostname
                  (omit_empty (text "seed_name") ep.seed_name end))))))))

unfoldable pub encode_metadata : ContainerMetadata → Json
encode_metadata meta = object (
    field (text "name") (string meta.name) (
      field (text "hostname") (string meta.hostname)
        (field (text "created_at") (time meta.created_at) end)))

-- The record of the options has no `json` tags, so the fields keep their Go names.
unfoldable pub encode_options : DhcpNetworkOptions → Json
encode_options opts = object (
    field (text "Bridge") (string opts.bridge) (
      field (text "IPv6") (boolean opts.ipv6) (
        field (text "LeaseTimeout") (number opts.lease_timeout) (
          field (text "IgnoreConflicts") (boolean opts.ignore_conflicts) (
            field (text "SkipRoutes") (boolean opts.skip_routes)
              (field (text "MacFormat") (string opts.mac_format) end))))))

unfoldable pub encode_network : NetworkState → Json
unfolding encode_endpoint encode_metadata encode_options omit_empty_map
encode_network net = object (
    field (text "id") (string net.id) (
      field (text "options") (encode_options net.options) (
        omit_empty_map (text "endpoints") encode_endpoint net.endpoints (
          omit_empty_map (text "container_map") string net.container_map
            (omit_empty_map (text "metadata_map") encode_metadata net.metadata_map end)))))

unfoldable pub encode_networks : Dict NetworkState → Json
unfolding encode_network
encode_networks networks = object (encode_dict encode_network networks)
