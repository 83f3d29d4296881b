-- ===== src/Network/Settle/Healed.antt =====
-- What the goroutine of Join in pkg/plugin/network.go puts right.
use docker_net_dhcp.Shared.{
  List, [], ◌∷◌, ◌++◌, true, false, Option, none, some, if◌then◌else◌, ◌≡◌, ◌≢◌, refl, ◌∙◌, ap, sym,
  arith, inl, inr, Bool-cases,
}
use docker_net_dhcp.Shared.Text.{Text, str_eq, str_eq_iff, str_eq_refl, is_empty}
use docker_net_dhcp.Shared.Result.{ok}
use docker_net_dhcp.Driver.{DhcpNetworkOptions}
use docker_net_dhcp.Macgen.{generate}
use docker_net_dhcp.Macgen.Derive.{is_empty-eq-false}
use docker_net_dhcp.Plugin.{Plugin, JoinHint, Call, link_add, link_del, stop, link_set_mac}
use docker_net_dhcp.Network.{mac_format_from_opts, veth_pair_names}
use docker_net_dhcp.Network.Identify.{Identity, unknown}
use docker_net_dhcp.Network.Create.Mac.{address_of}
use docker_net_dhcp.Network.Join.{JoinRequest}
use docker_net_dhcp.Network.Settle.{
  Later, effective_seed, correction, correction_calls, actual, settle,
}

effective_seed_ne : (who : Identity) → who.seed_name ≢ [] → effective_seed who ≢ []
effective_seed_ne who named = go who.hostname
  where
    go : (h : Text) → effective_seed (record { seed_name = who.seed_name; hostname = h }) ≢ []
    go [] = named
    go (b ∷ s) = λ p. cc

correction_same :
    (opts : DhcpNetworkOptions) (hint : JoinHint) (who : Identity)
    → str_eq (effective_seed who) hint.mac_seed ≡ true
    → correction opts hint who ≡ none
unfolding correction
correction_same opts hint who same = ground (arith, same)

correction_other :
    (opts : DhcpNetworkOptions) (hint : JoinHint) (who : Identity) (new : Text)
    → who.seed_name ≢ []
    → str_eq (effective_seed who) hint.mac_seed ≡ false
    → hint.user_specified_mac ≡ false
    → generate (record { seed = effective_seed who; format = mac_format_from_opts opts }) ≡ ok new
    → correction opts hint who ≡ some new
unfolding correction
correction_other opts hint who new named other free good =
    rw (is_empty-eq-false who.seed_name named, other, free, good) refl

-- the address of a link by its name, after calls that the kernel carries out
unfoldable pub mac_after : Text → List Call → Text → Text
mac_after link [] mac = mac
mac_after link (link_add host peer new ∷ calls) mac =
    mac_after link calls (if str_eq peer link then new else mac)
mac_after link (link_set_mac name new ∷ calls) mac =
    mac_after link calls (if str_eq name link then new else mac)
mac_after link (link_del host ∷ calls) mac = mac_after link calls mac
mac_after link (stop endpoint_id ∷ calls) mac = mac_after link calls mac

mac_after-append :
    (link : Text) (calls more : List Call) (mac : Text)
    → mac_after link (calls ++ more) mac ≡ mac_after link more (mac_after link calls mac)
unfolding mac_after
mac_after-append link [] more mac = refl
mac_after-append link (link_add host peer new ∷ calls) more mac = mac_after-append link calls more _
mac_after-append link (link_set_mac name new ∷ calls) more mac = mac_after-append link calls more _
mac_after-append link (link_del host ∷ calls) more mac = mac_after-append link calls more mac
mac_after-append link (stop endpoint_id ∷ calls) more mac = mac_after-append link calls more mac

-- the address after the calls of a correction
abbrev pub corrected : Option Text → Text → Text
corrected none mac = mac
corrected (some new) mac = new

mac_after-correction_calls :
    (id : Text) (fix : Option Text) (mac : Text)
    → mac_after (veth_pair_names id).1 (correction_calls id fix) mac ≡ corrected fix mac
unfolding mac_after
mac_after-correction_calls id none mac = refl
mac_after-correction_calls id (some new) mac = rw (str_eq_refl (veth_pair_names id).1) refl

pub correction_generated :
    (opts : DhcpNetworkOptions) (hint : JoinHint) (who : Identity) (mac : Text)
    → hint.user_specified_mac ≡ false
    → who.seed_name ≢ []
    → generate (record { seed = hint.mac_seed; format = mac_format_from_opts opts }) ≡ ok mac
    → generate (record { seed = effective_seed who; format = mac_format_from_opts opts })
      ≡ ok (corrected (correction opts hint who) mac)
unfolding correction
correction_generated opts hint who mac free named made =
    elim (Bool-cases (str_eq (effective_seed who) hint.mac_seed)) [
      | inl same ↦
          ap (λ (s : Text). generate (record { seed = s; format = mac_format_from_opts opts }))
            ((str_eq_iff (effective_seed who) hint.mac_seed).0 same)
          ∙ (made
              ∙ ap (λ (o : Option Text). ok (corrected o mac))
                  (sym (correction_same opts hint who same)))
      | inr other ↦
          let (new, good) = address_of opts (effective_seed who) (effective_seed_ne who named) in
          good
          ∙ ap (λ (o : Option Text). ok (corrected o mac))
              (sym (correction_other opts hint who new named other free good))
    ]

-- the link after the goroutine, for the container as which it has identified the endpoint's
pub settle-generated :
    (l : Later) (r : JoinRequest) (opts : DhcpNetworkOptions) (hint : JoinHint) (p : Plugin)
    (who : Identity) (first : Text)
    → actual l r.endpoint_id 10 0 unknown ≡ who
    → who.seed_name ≢ []
    → hint.user_specified_mac ≡ false
    → generate (record { seed = hint.mac_seed; format = mac_format_from_opts opts })
      ≡ ok (mac_after (veth_pair_names r.endpoint_id).1 p.calls first)
    → generate (record {
      seed = if is_empty who.hostname then who.seed_name else who.hostname;
      format = mac_format_from_opts opts;
    })
      ≡ ok (mac_after (veth_pair_names r.endpoint_id).1 (settle l r opts hint p).calls first)
unfolding settle
settle-generated l r opts hint p who first found named free made =
    let link = (veth_pair_names r.endpoint_id).1 in
    let fix = correction opts hint who in
    correction_generated opts hint who (mac_after link p.calls first) free named made
    ∙ ap ok (
        sym (
          rw found (
            mac_after-append link p.calls (correction_calls r.endpoint_id fix) first
            ∙ mac_after-correction_calls r.endpoint_id fix (mac_after link p.calls first))))

-- An address that the user asked for is never replaced.
pub correction_user :
    (opts : DhcpNetworkOptions) (hint : JoinHint) (who : Identity)
    → hint.user_specified_mac ≡ true
    → correction opts hint who ≡ none
unfolding correction
correction_user opts hint who user = ground (arith, user)
