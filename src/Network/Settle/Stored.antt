-- ===== src/Network/Settle/Stored.antt =====
-- What the goroutine of Join in pkg/plugin/network.go stores of the container that it finds.
use docker_net_dhcp.Shared.{true, false, ◌≡◌, ◌∙◌, ap, sym, ◌⊎◌}
use docker_net_dhcp.Shared.Text.{Text}
use docker_net_dhcp.Shared.Dict
use docker_net_dhcp.Shared.Dict.{Dict}
use docker_net_dhcp.Shared.Result.{ok}
use docker_net_dhcp.Macgen.{generate}
use docker_net_dhcp.Driver.{DhcpNetworkOptions}
use docker_net_dhcp.Plugin.{Plugin, JoinHint}
use docker_net_dhcp.Plugin.Events.{Container}
use docker_net_dhcp.Network.{mac_format_from_opts, veth_pair_names}
use docker_net_dhcp.Network.Join.{JoinRequest}
use docker_net_dhcp.Network.Settle.Found.{
  hostname_or_name, IsFound, actual-IsFound, effective_seed-hostname_or_name,
}
use docker_net_dhcp.Network.Settle.Healed.{mac_after, settle-generated}
use docker_net_dhcp.Network.Settle.{Later, settle}

-- Whichever container CreateEndpoint took the endpoint to be for, when the goroutine of Join ends, the
-- container's link has the MAC address that `Generate` derives from the hostname of the container that
-- Docker shows for the endpoint, or from its name where Docker chose the hostname or there is none:
-- either the address was the right one already or the goroutine has corrected it. This is for a
-- container that Docker shows within the ten attempts, a kernel that carries out what it is asked for,
-- and an address that was generated from the seed of the hint, not asked for by the user.
pub mac_after-settle :
    (l : Later) (r : JoinRequest) (opts : DhcpNetworkOptions) (hint : JoinHint) (p : Plugin)
    (name : Text) (ctr : Container) (first : Text)
    → IsFound l r.endpoint_id name ctr
    → hint.user_specified_mac ≡ false
    → generate (record { seed = hint.mac_seed; format = mac_format_from_opts opts })
      ≡ ok (mac_after (veth_pair_names r.endpoint_id).1 p.calls first)
    → generate (record { seed = hostname_or_name ctr name; format = mac_format_from_opts opts })
      ≡ ok (mac_after (veth_pair_names r.endpoint_id).1 (settle l r opts hint p).calls first)
mac_after-settle l r opts hint p name ctr first f free made =
    ap (λ (s : Text). generate (record { seed = s; format = mac_format_from_opts opts }))
      (sym (effective_seed-hostname_or_name name ctr))
    ∙ settle-generated l r opts hint p _ first (actual-IsFound l r.endpoint_id name ctr f) f.given
        free made

-- the address of the link in the end: the one that the user asked for, or else the one derived from
-- the container, where the first one was derived from the seed of the hint
abbrev pub HasMac : Later → DhcpNetworkOptions → JoinHint → Text → Text → Type 0
HasMac l opts hint seed mac =
    ((hint.user_specified_mac ≡ true) × (mac ≡ l.found_mac))
    ⊎ ((hint.user_specified_mac ≡ false)
        × (generate (record { seed = hint.mac_seed; format = mac_format_from_opts opts })
            ≡ ok l.found_mac)
        × (generate (record { seed = seed; format = mac_format_from_opts opts }) ≡ ok mac))
