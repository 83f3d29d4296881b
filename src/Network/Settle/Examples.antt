-- ===== src/Network/Settle/Examples.antt =====
-- A container that CreateEndpoint took for another one, put right after Join (pkg/plugin/network.go).
use docker_net_dhcp.Shared.{[], ◌∷◌, ◌≡◌, refl, true, some, arith}
use docker_net_dhcp.Shared.Text.{Text, text, str_eq}
use docker_net_dhcp.Shared.Dict
use docker_net_dhcp.Shared.Result.{ok}
use docker_net_dhcp.Macgen.{generate}
use docker_net_dhcp.Macgen.Hex.{encode_hex, parse_uint8, hex_value}
use docker_net_dhcp.Macgen.Md5.{md5}
use docker_net_dhcp.Cache.Sample.{fine, net_1, bridged}
use docker_net_dhcp.Plugin.{Plugin, JoinHint, no_hint_yet, link_add}
use docker_net_dhcp.Plugin.Events.{Container}
use docker_net_dhcp.Network.{Summary, mac_format_from_opts}
use docker_net_dhcp.Network.Create.Sample.{small}
use docker_net_dhcp.Network.Join.{JoinRequest}
use docker_net_dhcp.Network.Settle.{Later, has_endpoint, settle}
use docker_net_dhcp.Network.Settle.Healed.{mac_after}
use docker_net_dhcp.Network.Settle.Found.{IsFound}
use docker_net_dhcp.Network.Settle.Stored.{mac_after-settle}

abbrev listed : Summary
listed = record {
  id = text "c1";
  names = text "/db" ∷ [];
  networks = (text "lan", record { network_id = net_1; endpoint_id = text "ep3" }) ∷ [];
}

abbrev inspected : Container
inspected = record {
  id = text "c1";
  name = text "/db";
  hostname = text "db.lan";
  network_mode = text "lan";
  networks = [];
}

abbrev later : Later
later = record {
  container_list = λ k. some (listed ∷ []);
  container_inspect = λ id. some inspected;
  takes_mac = true;
  found_mac = text "02:09:8f:6b:cd:46";
  shows_link = true;
  unshown_mac = [];
  outcome = fine;
}

abbrev wrong : JoinHint
wrong = record no_hint_yet {
  hostname = text "test";
  seed_name = text "test";
  mac_seed = text "test";
}

abbrev joining : JoinRequest
joining = record { network_id = net_1; endpoint_id = text "ep3"; sandbox_key = text "key" }

-- the link was made with the address of the seed "test"
abbrev linked : Plugin
linked = record small {
  calls = link_add (text "dh-ep3") (text "ep3-dh") (text "02:09:8f:6b:cd:46") ∷ [];
}

listed-IsFound : IsFound later (text "ep3") (text "db") inspected
unfolding str_eq has_endpoint
listed-IsFound = record {
  attempt = 0;
  in_time = omega arith;
  missed = λ j h. absurd (omega arith);
  before = [];
  after = [];
  others = tt;
  id = text "c1";
  aliases = [];
  networks = (text "lan", record { network_id = net_1; endpoint_id = text "ep3" }) ∷ [];
  shown = refl;
  attached = refl;
  given = λ p. cc;
  inspected = refl;
}

mac_after-settle_example :
    generate (record { seed = text "db.lan"; format = mac_format_from_opts bridged })
    ≡ ok (mac_after (text "ep3-dh") (settle later joining bridged wrong linked).calls [])
unfolding generate encode_hex parse_uint8 md5 str_eq hex_value mac_format_from_opts mac_after
mac_after-settle_example =
    mac_after-settle later joining bridged wrong linked (text "db") inspected [] listed-IsFound refl
      refl

abbrev db_mac : Text
db_mac = text "02:2f:5a:a3:19:32"
