-- ===== src/Macgen.antt =====
-- pkg/macgen/macgen.go: MAC addresses derived from a seed, and DUIDs derived from a MAC address.
-- The standard library that it calls is in the children `Md5`, `Hex` and `Address`.
pub mod Md5
pub mod Hex
pub mod Address
pub mod Derive
pub mod Parity
pub mod Cli
mod Examples
use docker_net_dhcp.Shared.{
  ℕ, zero, suc, ◌+◌, ◌-◌, ◌*◌, List, [], ◌∷◌, ◌++◌, if◌then◌else◌, get_or, set, slice,
}
use docker_net_dhcp.Shared.Text.{Text, text, str_eq, is_empty}
use docker_net_dhcp.Shared.Result.{Result, ok, err, or_fail, ◌>>=◌}
use Md5.{md5}
use Hex.{hex_byte, encode_hex, parse_uint8}
use Address.{parse_mac}

-- type Format string
abbrev pub Format : Type 0
Format = Text

abbrev pub format_colon : Format
format_colon = text "colon"

abbrev pub format_hyphen : Format
format_hyphen = text "hyphen"

abbrev pub format_dot : Format
format_dot = text "dot"

pub record Options : Type 0 where
  pub seed : Text
  pub format : Format

pub data Error : Type 0 where
  empty_seed : Error
  bad_hex_byte : Text → Error
  unsupported_format : Format → Error
  invalid_mac : Text → Error

-- `for i := 1; i < 6; i++`, with the rounds left: byte `i` is read back from the hexadecimal text
unfoldable pub fill_bytes : ℕ → ℕ → Text → List ℕ → Result Error (List ℕ)
fill_bytes zero i hex_str mac_bytes = ok mac_bytes
fill_bytes (suc n) i hex_str mac_bytes = do
  let off = 2 * (i - 1)
  val ← or_fail (bad_hex_byte hex_str) (parse_uint8 (slice hex_str off (off + 2)))
  fill_bytes n (i + 1) hex_str (set mac_bytes i val)

-- six bytes by `%02x`, with a separator between them
unfoldable pub join_bytes : ℕ → List ℕ → Text
unfolding hex_byte
join_bytes sep m =
    hex_byte (get_or m 0 0)
    ++ sep
      ∷ (hex_byte (get_or m 1 0)
          ++ sep
            ∷ (hex_byte (get_or m 2 0)
                ++ sep
                  ∷ (hex_byte (get_or m 3 0)
                      ++ sep ∷ (hex_byte (get_or m 4 0) ++ sep ∷ hex_byte (get_or m 5 0)))))

-- the layout of three pairs, "%02x%02x.%02x%02x.%02x%02x"
unfoldable pub join_dotted : List ℕ → Text
unfolding hex_byte
join_dotted m =
    hex_byte (get_or m 0 0)
    ++ (hex_byte (get_or m 1 0)
        ++ b'.'
          ∷ (hex_byte (get_or m 2 0)
              ++ (hex_byte (get_or m 3 0)
                  ++ b'.' ∷ (hex_byte (get_or m 4 0) ++ hex_byte (get_or m 5 0)))))

-- the `switch opts.Format`
unfoldable pub format_mac : Format → List ℕ → Result Error Text
unfolding join_bytes join_dotted
format_mac format m =
    if str_eq format format_colon
    then ok (join_bytes b':' m)
    else if str_eq format format_hyphen
    then ok (join_bytes b'-' m)
    else if str_eq format format_dot
    then ok (join_dotted m)
    else err (unsupported_format format)

-- the empty format stands for the colon format
abbrev pub or_default : Format → Format
or_default format = if is_empty format then format_colon else format

unfoldable pub generate : Options → Result Error Text
unfolding fill_bytes format_mac
generate opts = if is_empty opts.seed then err empty_seed else do
  let hex_str = encode_hex (md5 opts.seed)
  mac_bytes ← fill_bytes 5 1 hex_str (0x02 ∷ 0 ∷ 0 ∷ 0 ∷ 0 ∷ 0 ∷ [])
  format_mac (or_default opts.format) mac_bytes

abbrev pub duid_prefix : Text
duid_prefix = text "00:03:00:01:"

unfoldable pub generate_duid : Text → Result Error Text
unfolding join_bytes
generate_duid mac_str = do
  hw_addr ← or_fail (invalid_mac mac_str) (parse_mac mac_str)
  ok (duid_prefix ++ join_bytes b':' hw_addr)
