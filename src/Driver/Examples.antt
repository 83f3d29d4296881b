-- ===== src/Driver/Examples.antt =====
-- Driver names of pkg/plugin/pending_test.go (TestIsDHCPPlugin_BackwardCompat).
use docker_net_dhcp.Shared.{true, false, ◌≡◌, ◌↔◌, ◌⊎◌, ◌++◌, refl}
use docker_net_dhcp.Shared.Text.{Text, text, cut_prefix}
use docker_net_dhcp.Driver.{
  IsTag, matches, is_dhcp_plugin, is_dhcp_plugin_iff, prefix_new, prefix_old,
}

legacy_name : is_dhcp_plugin (text "ghcr.io/devplayer0/docker-net-dhcp:golang") ≡ true
unfolding is_dhcp_plugin matches cut_prefix
legacy_name = refl

no_tag : is_dhcp_plugin (text "ghcr.io/thehaven/docker-net-dhcp:") ≡ false
unfolding is_dhcp_plugin matches cut_prefix
no_tag = refl

other_driver : is_dhcp_plugin (text "bridge") ≡ false
unfolding is_dhcp_plugin matches cut_prefix
other_driver = refl

is_dhcp_plugin_iff_example : (is_dhcp_plugin (text "bridge") ≡ true) ↔ (
    (tag : Text) × IsTag tag
    × ((text "bridge" ≡ prefix_new ++ tag) ⊎ (text "bridge" ≡ prefix_old ++ tag)))
is_dhcp_plugin_iff_example = is_dhcp_plugin_iff (text "bridge")
