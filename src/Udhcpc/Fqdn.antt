-- ===== src/Udhcpc/Fqdn.antt =====
-- pkg/udhcpc/client.go: the hostname in the options that a udhcpc6 client sends.
use docker_net_dhcp.Shared.{
  ℕ, ◌<◌, ◌≡◌, ◌≢◌, ◌↔◌, List, [], ◌∷◌, ◌++◌, true, Option, none, some, if◌then◌else◌, ◌==◌, refl,
  ◌∙◌, arith, All, length,
}
use docker_net_dhcp.Shared.Text.{Text, text, cut_prefix}
use docker_net_dhcp.Macgen.Hex.{encode_hex, hex_byte, hex_pair, hex_pair-hex_byte}
use docker_net_dhcp.Macgen.Derive.{is_empty-eq-false}
use docker_net_dhcp.Udhcpc.{fqdn_data, hostname_args}

-- how the text is read: two digits for a byte
unfoldable pub read_hex : Text → Option (List ℕ)
read_hex [] = some []
read_hex (h ∷ []) = none
read_hex (h ∷ l ∷ s) = elim (hex_pair h l) [
  | none ↦ none
  | some b ↦ elim (read_hex s) [ none ↦ none | some bs ↦ some (b ∷ bs) ]
]

-- the data of the option behind `-x`
unfoldable pub read_option : List Text → Option (List ℕ)
unfolding read_hex
read_option (flag ∷ opt ∷ []) = elim (cut_prefix (text "0x27:") opt) [
  | none ↦ none
  | some digits ↦ read_hex digits
]
read_option _ = none

-- the name in the data: its length has to be that of the rest
unfoldable pub read_name : List ℕ → Option Text
read_name (flags ∷ n ∷ name) = if n == length name then some name else none
read_name _ = none

read_hex-encode_hex : (bs : List ℕ) → All (λ b. b < 256) bs → read_hex (encode_hex bs) ≡ some bs
unfolding read_hex encode_hex hex_byte
read_hex-encode_hex [] h = refl
read_hex-encode_hex (b ∷ bs) h =
    rw (read_hex, hex_pair-hex_byte b h.0, read_hex-encode_hex bs h.1) refl

fqdn_data-IsByte :
    (hostname : Text) → All (λ b. b < 256) hostname → All (λ b. b < 256) (fqdn_data hostname)
unfolding fqdn_data
fqdn_data-IsByte hostname h = (omega arith, (omega arith, h))

read_name-fqdn_data :
    (hostname : Text) → (read_name (fqdn_data hostname) ≡ some hostname) ↔ (length hostname < 256)
unfolding read_name fqdn_data
read_name-fqdn_data hostname = ground arith

read_option_lem :
    (flag digits : Text) → read_option (flag ∷ (text "0x27:" ++ digits) ∷ []) ≡ read_hex digits
unfolding read_option cut_prefix
read_option_lem flag digits = refl

-- The option that names the host to a DHCPv6 server holds two digits for a byte, each byte is below
-- 256, and from the bytes a reader has the hostname back exactly if the hostname has fewer than 256
-- bytes: the length that stands before a longer one has wrapped around. This is for hostnames that
-- are not empty, given as bytes.
pub read_option-hostname_args :
    (hostname : Text)
    → hostname ≢ []
    → All (λ b. b < 256) hostname
    → (read_option (hostname_args true hostname) ≡ some (fqdn_data hostname))
      × All (λ b. b < 256) (fqdn_data hostname)
      × ((read_name (fqdn_data hostname) ≡ some hostname) ↔ (length hostname < 256))
unfolding hostname_args
read_option-hostname_args hostname named bytes =
    let data_bytes = fqdn_data-IsByte hostname bytes in
    (
      rw (is_empty-eq-false hostname named) (
          read_option_lem (text "-x") (encode_hex (fqdn_data hostname))
          ∙ read_hex-encode_hex (fqdn_data hostname) data_bytes),
      data_bytes,
      read_name-fqdn_data hostname,
    )
