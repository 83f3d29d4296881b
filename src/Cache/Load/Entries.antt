-- ===== src/Cache/Load/Entries.antt =====
-- The entries of the cache of pkg/plugin/cache.go: what is written of one is read back.
use docker_net_dhcp.Shared.{[], ◌∷◌, Option, none, some, ◌≡◌, refl, ◌∙◌, sym, ap}
use docker_net_dhcp.Shared.Text.{Text, text, str_eq}
use docker_net_dhcp.Shared.Dict.{Dict}
use docker_net_dhcp.Shared.Dict.Distinct.{IsDistinct}
use docker_net_dhcp.Json.{Json, string, object, omit_empty, encode_dict}
use docker_net_dhcp.Json.Decode.{
  same_name, decode_string, decode_bool, decode_number, decode_time, decode_fields, decode_object,
  decode_map, with_value, map_values-id, non_empty, decode_map-encode, decode_fields-omit_empty_map,
}
use docker_net_dhcp.Shared.Dict.Each.{each}
use docker_net_dhcp.Cache.State.{EndpointState, ContainerMetadata, NetworkState}
use docker_net_dhcp.Cache.Json.{encode_endpoint, encode_metadata, encode_options, encode_network}
use docker_net_dhcp.Cache.Maps.{IsMap, IsStored}
use docker_net_dhcp.Cache.Load.{
  no_endpoint, no_metadata, no_network, endpoint_field, metadata_field, options_field,
  network_field, decode_endpoint, decode_metadata, decode_options, decode_network,
}

decode_metadata-encode :
    (m : ContainerMetadata) → decode_metadata (encode_metadata m) no_metadata ≡ some m
unfolding encode_metadata decode_metadata metadata_field decode_object decode_fields same_name
    str_eq decode_string decode_time
decode_metadata-encode m = refl

decode_endpoint-encode :
    (ep : EndpointState) → decode_endpoint (encode_endpoint ep) no_endpoint ≡ some ep
unfolding encode_endpoint decode_endpoint endpoint_field decode_object decode_fields same_name
    str_eq decode_string omit_empty
decode_endpoint-encode ep = go ep.ipv6 ep.hostname ep.seed_name
  where
    open ep use {id, sandbox_key, mac_address, ip, gateway}

    go :
        (ipv6 hostname seed_name : Text)
        → let e = record ep { ipv6 = ipv6; hostname = hostname; seed_name = seed_name } in
          decode_endpoint (encode_endpoint e) no_endpoint ≡ some e
    go [] [] [] = refl
    go [] [] (c ∷ s) = refl
    go [] (b ∷ h) [] = refl
    go [] (b ∷ h) (c ∷ s) = refl
    go (a ∷ i) [] [] = refl
    go (a ∷ i) [] (c ∷ s) = refl
    go (a ∷ i) (b ∷ h) [] = refl
    go (a ∷ i) (b ∷ h) (c ∷ s) = refl

-- a network as it is after a restart: an empty map has become nil
abbrev pub normal : NetworkState → NetworkState
normal net = record net {
  endpoints = non_empty net.endpoints;
  container_map = non_empty net.container_map;
  metadata_map = non_empty net.metadata_map;
}

decode_map-whole {ℓ} :
    {V : Type ℓ} (decode : Json → V → Option V) (zero : V) (encode : V → Json)
    → ((v : V) → decode (encode v) zero ≡ some v)
    → (m : Dict V) → IsDistinct m
    → decode_map decode zero (object (encode_dict encode m)) none ≡ some (some m)
decode_map-whole decode zero encode back m d =
    decode_map-encode decode zero encode (λ v. v) m (each back m) d
    ∙ ap (λ n. some (some n)) (map_values-id m)

decode_map-field {ℓ} :
    {V : Type ℓ} (decode : Json → V → Option V) (zero : V) (encode : V → Json)
    → ((v : V) → decode (encode v) zero ≡ some v)
    → (m : Option (Dict V)) → IsMap m
    → (change : Option (Dict V) → NetworkState) → (e : Text × V) (t : Dict V) → m ≡ some (e ∷ t)
    → with_value (decode_map decode zero (object (encode_dict encode (e ∷ t))) none) change
      ≡ some (change (non_empty m))
decode_map-field decode zero encode back m d change e t h =
    rw (h, decode_map-whole decode zero encode back (e ∷ t) (rw h at d)) refl

pub decode_network-encode :
    (net : NetworkState)
    → IsStored net
    → decode_network (encode_network net) no_network ≡ some (normal net)
unfolding encode_network decode_network network_field decode_object decode_fields same_name str_eq
    decode_string decode_options encode_options options_field decode_bool decode_number
decode_network-encode net st =
    decode_fields-omit_empty_map network_field (text "endpoints") encode_endpoint net.endpoints _
      (with_maps none none none) (with_maps endpoints none none)
      (decode_map-field decode_endpoint no_endpoint encode_endpoint decode_endpoint-encode
        net.endpoints st.endpoints_distinct (λ m. with_maps m none none))
      (λ h. ap (λ m. with_maps m none none) (sym h))
    ∙ (decode_fields-omit_empty_map network_field (text "container_map") string net.container_map _
          (with_maps endpoints none none) (with_maps endpoints containers none)
          (decode_map-field decode_string [] string (λ s. refl) net.container_map
            st.containers_distinct (λ m. with_maps endpoints m none))
          (λ h. ap (λ m. with_maps endpoints m none) (sym h))
        ∙ decode_fields-omit_empty_map network_field (text "metadata_map") encode_metadata
            net.metadata_map _ (with_maps endpoints containers none) (normal net)
            (decode_map-field decode_metadata no_metadata encode_metadata decode_metadata-encode
              net.metadata_map st.metadata_distinct (with_maps endpoints containers))
            (λ h. ap (with_maps endpoints containers) (sym h)))
  where
    endpoints : Option (Dict EndpointState)
    endpoints = non_empty net.endpoints

    containers : Option (Dict Text)
    containers = non_empty net.container_map

    with_maps :
        Option (Dict EndpointState)
        → Option (Dict Text)
        → Option (Dict ContainerMetadata)
        → NetworkState
    with_maps e c m = record net { endpoints = e; container_map = c; metadata_map = m }
