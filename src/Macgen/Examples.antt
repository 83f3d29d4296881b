-- ===== src/Macgen/Examples.antt =====
-- Runs of pkg/macgen on the inputs of pkg/macgen/macgen_test.go, and the theorems at such inputs.
use docker_net_dhcp.Shared.{[], ◌≡◌, refl, some}
use docker_net_dhcp.Shared.Text.{text, str_eq}
use docker_net_dhcp.Shared.Result.{ok, err}
use docker_net_dhcp.Macgen.Md5.{md5}
use docker_net_dhcp.Macgen.Hex.{encode_hex, parse_uint8, hex_value}
use docker_net_dhcp.Macgen.Address.{parse_mac}
use docker_net_dhcp.Macgen.Derive.{derived, generate-derived}
use docker_net_dhcp.Macgen.Parity.{parse_mac-generate}
use docker_net_dhcp.Macgen.{Options, empty_seed, generate, format_mac, format_hyphen, format_dot}

abbrev test_opts : Options
test_opts = record { seed = text "test"; format = [] }

abbrev dotted_opts : Options
dotted_opts = record { seed = text "test"; format = format_dot }

default_format : generate test_opts ≡ ok (text "02:09:8f:6b:cd:46")
unfolding generate encode_hex parse_uint8 md5 str_eq hex_value
default_format = refl

hyphen_format :
    generate (record { seed = text "test"; format = format_hyphen }) ≡ ok (text "02-09-8f-6b-cd-46")
unfolding generate encode_hex parse_uint8 md5 str_eq hex_value
hyphen_format = refl

dot_format : generate dotted_opts ≡ ok (text "0209.8f6b.cd46")
unfolding generate encode_hex parse_uint8 md5 str_eq hex_value
dot_format = refl

another_seed :
    generate (record { seed = text "container-1"; format = [] }) ≡ ok (text "02:b5:88:c2:19:86")
unfolding generate encode_hex parse_uint8 md5 str_eq hex_value
another_seed = refl

no_seed : generate (record { seed = []; format = [] }) ≡ err empty_seed
unfolding generate
no_seed = refl

generate-derived_example : generate test_opts ≡ format_mac (text "colon") (derived (text "test"))
generate-derived_example = generate-derived test_opts (λ p. cc)

parse_mac-generate_example : parse_mac (text "0209.8f6b.cd46") ≡ some (derived (text "test"))
parse_mac-generate_example = parse_mac-generate dotted_opts (text "0209.8f6b.cd46") dot_format
