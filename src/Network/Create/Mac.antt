-- ===== src/Network/Create/Mac.antt =====
-- The MAC address that CreateEndpoint of pkg/plugin/network.go gives and shows.
use docker_net_dhcp.Shared.{
  sym, not, if◌then◌else◌, [], ◌∷◌, none, some, ◌≡◌, ◌≢◌, refl, ◌∙◌, ap, inl, inr, arith,
  Bool-cases,
}
use docker_net_dhcp.Shared.Text.{Text, text, str_eq, is_empty}
use docker_net_dhcp.Shared.Result.{Result, ok}
use docker_net_dhcp.Driver.{DhcpNetworkOptions}
use docker_net_dhcp.Macgen
use docker_net_dhcp.Errors.{Error}
use docker_net_dhcp.Macgen.{generate, format_mac, or_default}
use docker_net_dhcp.Macgen.Address.{parse_mac}
use docker_net_dhcp.Macgen.Derive.{
  IsSupported, derived, generate-derived, format_mac_supported, is_empty-eq-false,
}
use docker_net_dhcp.Macgen.Parity.{parse_mac-generate}
use docker_net_dhcp.Plugin.{Plugin}
use docker_net_dhcp.Network.{World, mac_format_from_opts, net_options}
use docker_net_dhcp.Network.Identify.{
  CreateEndpointRequest, EndpointInterface, Identity, requested_mac, identify,
}
use docker_net_dhcp.Network.Create.{
  mac_seed_of, note_identity, choose_mac, make_link, with_options, create_endpoint, or_nil,
}
use docker_net_dhcp.Network.Create.Lease.{Works, make_link-Works}

mac_format-IsSupported : (opts : DhcpNetworkOptions) → IsSupported (mac_format_from_opts opts)
unfolding mac_format_from_opts
mac_format-IsSupported opts = elim (Bool-cases (str_eq opts.mac_format (text "hyphen"))) [
  | inl h ↦ rw h (inr (inr (inl refl)))
  | inr h ↦ elim (Bool-cases (str_eq opts.mac_format (text "dot"))) [
    | inl d ↦ rw (h, d) (inr (inr (inr refl)))
    | inr d ↦ rw (h, d) (inr (inl refl))
  ]
]

-- the address of a seed that is not empty, for the options of a network
pub address_of :
    (opts : DhcpNetworkOptions) (seed : Text)
    → seed ≢ []
    → (mac : Text) × (generate (record { seed = seed; format = mac_format_from_opts opts })
        ≡ ok mac)
address_of opts seed h =
    let (mac, good) =
      format_mac_supported (mac_format_from_opts opts) (derived seed)
        (mac_format-IsSupported opts) in
    (mac, generate-derived (record { seed = seed; format = mac_format_from_opts opts }) h ∙ good)

parse_mac_nil : parse_mac [] ≡ none
unfolding parse_mac
parse_mac_nil = refl

or_nil_shown : (i : EndpointInterface) → i.mac_address ≢ [] → or_nil i ≡ some i
or_nil_shown i h = ground (arith, is_empty-eq-false i.mac_address h)

mac_seed_ne : (id : Text) (who : Identity) → id ≢ [] → mac_seed_of id who ≢ []
mac_seed_ne id who h = go who.seed_name who.hostname
  where
    go : (s t : Text) → mac_seed_of id (record { seed_name = s; hostname = t }) ≢ []
    go [] [] = h
    go (b ∷ s) [] = λ p. cc
    go s (b ∷ t) = λ p. cc

generated_ne :
    (seed format mac : Text)
    → generate (record { seed = seed; format = format }) ≡ ok mac
    → mac ≢ []
generated_ne seed format mac h p =
    let read = parse_mac-generate (record { seed = seed; format = format }) mac h in
    let none_read : parse_mac mac ≡ none = rw p parse_mac_nil in cc

choose_mac_generated :
    (opts : DhcpNetworkOptions) (r : CreateEndpointRequest) (who : Identity) (p : Plugin)
    (mac : Text)
    → requested_mac r ≡ []
    → generate (record { seed = mac_seed_of r.endpoint_id who; format = mac_format_from_opts opts })
      ≡ ok mac
    → (choose_mac opts r who p).1 ≡ ok (mac, mac)
unfolding choose_mac
choose_mac_generated opts r who p mac none_asked good = rw (none_asked, good) refl

choose_mac_requested :
    (opts : DhcpNetworkOptions) (r : CreateEndpointRequest) (who : Identity) (p : Plugin)
    → requested_mac r ≢ []
    → (choose_mac opts r who p).1 ≡ ok (requested_mac r, [])
unfolding choose_mac
choose_mac_requested opts r who p asked = rw (is_empty-eq-false (requested_mac r) asked) refl

pub mac_seed-order :
    (id : Text) (who : Identity)
    → mac_seed_of id who ≡ (
        if not (is_empty who.hostname)
        then who.hostname
        else if not (is_empty who.seed_name)
        then who.seed_name
        else id)
mac_seed-order id who = ground arith

module _ (w : World) (r : CreateEndpointRequest) where
  make_link_chosen :
      (opts : DhcpNetworkOptions) (m : Plugin × Result Macgen.Error (Text × Text))
      (mac response_mac : Text)
      → Works w
      → m.1 ≡ ok (mac, response_mac)
      → (j : EndpointInterface) × ((make_link w opts r m).1 ≡ ok (or_nil j))
        × (j.mac_address ≡ response_mac)
  make_link_chosen opts (p, chosen) mac response_mac works h =
      rw h (make_link-Works w opts r p mac response_mac works)

  -- the container that the request is taken to be for
  abbrev pub identified : Plugin → Identity
  identified p = (identify w r (net_options w r.network_id p).0).1

  with_options_generated :
      (s : Plugin × Result Error DhcpNetworkOptions) (opts : DhcpNetworkOptions)
      → Works w
      → s.1 ≡ ok opts
      → requested_mac r ≡ []
      → r.endpoint_id ≢ []
      → (j : EndpointInterface) × ((with_options w r s).1 ≡ ok (some j))
        × (generate (record {
          seed = mac_seed_of r.endpoint_id (identify w r s.0).1;
          format = mac_format_from_opts opts;
        })
            ≡ ok j.mac_address)
  unfolding with_options
  with_options_generated (p, o) opts works known none_asked h =
      let who = (identify w r p).1 in
      let q = note_identity r.endpoint_id who (identify w r p).0 in
      let (mac, good) =
        address_of opts (mac_seed_of r.endpoint_id who) (mac_seed_ne r.endpoint_id who h) in
      let (j, made, shown_mac) =
        make_link_chosen opts (choose_mac opts r who q) mac mac works
          (choose_mac_generated opts r who q mac none_asked good) in
      let good_j = good ∙ ap ok (sym shown_mac) in
      (
        j,
        rw (known, with_options, (works.finds opts.bridge).1)
            (made ∙ ap ok (or_nil_shown j (generated_ne _ _ _ good_j))),
        good_j,
      )

  -- Where the request has no MAC address and the kernel and the DHCP server serve it, CreateEndpoint
  -- returns an interface, and its MAC address is the one that `Generate` derives in the network's
  -- format from the hostname of the identified container, or else its name, or else the endpoint's
  -- id: it never fails to generate one.
  pub create_endpoint-generated :
      (p : Plugin) (opts : DhcpNetworkOptions)
      → Works w
      → (net_options w r.network_id p).1 ≡ ok opts
      → requested_mac r ≡ []
      → r.endpoint_id ≢ []
      → (j : EndpointInterface) × ((create_endpoint w r p).1 ≡ ok (some j))
        × (generate (record {
          seed =
              if not (is_empty (identified p).hostname)
              then (identified p).hostname
              else if not (is_empty (identified p).seed_name)
              then (identified p).seed_name
              else r.endpoint_id;
          format = mac_format_from_opts opts;
        })
            ≡ ok j.mac_address)
  unfolding create_endpoint
  create_endpoint-generated p opts works known none_asked h =
      let (j, made, good) =
        with_options_generated (net_options w r.network_id p) opts works known none_asked h in
      (j, made, rw (mac_seed-order r.endpoint_id (identified p)) at good)
