-- ===== src/Macgen/Parity.antt =====
-- The three formats of `generate` (pkg/macgen/macgen.go) stand for one address: `net.ParseMAC`
-- reads the same bytes back from each, and `generate_duid` makes the same DUID of each.
use docker_net_dhcp.Shared.{ℕ, ◌≡◌, refl, sym, ◌∙◌, List, [], ◌∷◌, ◌++◌, arith, ◌<◌, ◌/◌, some}
use docker_net_dhcp.Shared.Text.{Text}
use docker_net_dhcp.Shared.Result.{ok}
use docker_net_dhcp.Macgen.Hex.{hex_pair-hex_byte, hex_digit_ne_separator}
use docker_net_dhcp.Macgen.Address.{parse_mac}
use docker_net_dhcp.Macgen.Derive.{derived, generate-derived, md5-FiveBytes}
use docker_net_dhcp.Macgen.{
  Format, Options, format_mac, or_default, generate, generate_duid, join_bytes, join_dotted,
  duid_prefix,
}

module _ (a b c d e f : ℕ) (ha : a < 256) (hb : b < 256) (hc : c < 256) (hd : d < 256)
    (he : e < 256) (hf : f < 256) where
  abbrev six : List ℕ
  six = a ∷ b ∷ c ∷ d ∷ e ∷ f ∷ []

  parse_mac-colons : parse_mac (join_bytes b':' six) ≡ some six
  unfolding parse_mac join_bytes
  parse_mac-colons =
      rw
        (
          hex_pair-hex_byte a ha,
          hex_pair-hex_byte b hb,
          hex_pair-hex_byte c hc,
          hex_pair-hex_byte d hd,
          hex_pair-hex_byte e he,
          hex_pair-hex_byte f hf,
        )
        refl

  parse_mac-hyphens : parse_mac (join_bytes b'-' six) ≡ some six
  unfolding parse_mac join_bytes
  parse_mac-hyphens =
      rw
        (
          hex_pair-hex_byte a ha,
          hex_pair-hex_byte b hb,
          hex_pair-hex_byte c hc,
          hex_pair-hex_byte d hd,
          hex_pair-hex_byte e he,
          hex_pair-hex_byte f hf,
        )
        refl

  parse_mac-dotted : parse_mac (join_dotted six) ≡ some six
  unfolding parse_mac join_dotted
  parse_mac-dotted =
      rw
        (
          hex_digit_ne_separator (b / 16) (omega arith),
          hex_pair-hex_byte a ha,
          hex_pair-hex_byte b hb,
          hex_pair-hex_byte c hc,
          hex_pair-hex_byte d hd,
          hex_pair-hex_byte e he,
          hex_pair-hex_byte f hf,
        )
        refl

  parse_mac-format_mac :
      (format : Format) (s : Text) → format_mac format six ≡ ok s → parse_mac s ≡ some six
  unfolding format_mac
  parse_mac-format_mac format s h =
      ground (arith, parse_mac-colons, parse_mac-hyphens, parse_mac-dotted)

-- Whatever its format, the text that `generate` writes is read back by `net.ParseMAC` as the six
-- bytes derived from the seed.
pub parse_mac-generate :
    (opts : Options) (s : Text) → generate opts ≡ ok s → parse_mac s ≡ some (derived opts.seed)
parse_mac-generate opts s h = go opts.seed opts.format h
  where
    go :
        (seed : Text) (format : Format)
        → generate (record { seed = seed; format = format }) ≡ ok s
        → parse_mac s ≡ some (derived seed)
    go [] format h = absurd (unfold generate in cc h)
    go (x ∷ xs) format h =
        let v = md5-FiveBytes (x ∷ xs) in
        let written : format_mac (or_default format) (derived (x ∷ xs)) ≡ ok s =
          sym (generate-derived (record { seed = x ∷ xs; format = format }) (λ p. cc)) ∙ h in
        rw v.shape (
          parse_mac-format_mac 2 v.a v.b v.c v.d v.e (omega arith) v.a_byte v.b_byte v.c_byte
            v.d_byte v.e_byte (or_default format) s (rw v.shape at written))

-- The DUID of a generated address does not depend on the format: it is always the prefix of a
-- DUID-LL for Ethernet and the six bytes derived from the seed.
pub generate_duid-generate :
    (opts : Options) (s : Text)
    → generate opts ≡ ok s
    → generate_duid s ≡ ok (duid_prefix ++ join_bytes b':' (derived opts.seed))
unfolding generate_duid
generate_duid-generate opts s h = rw (parse_mac-generate opts s h)
