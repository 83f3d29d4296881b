-- ===== src/Macgen/Hex.antt =====
-- Hexadecimal text of Go's standard library, as pkg/macgen/macgen.go uses it: `%02x` and
-- `hex.EncodeToString` write it, `strconv.ParseUint(s, 16, 8)` and `net.ParseMAC` read it.
use docker_net_dhcp.Shared.{
  ℕ, ◌+◌, ◌-◌, ◌*◌, ◌/◌, ◌%◌, ◌<◌, ◌≡◌, List, [], ◌∷◌, ◌++◌, arith, ltb, leb, ◌&&◌, ◌==◌, ◌||◌,
  false, if◌then◌else◌, Option, none, some,
}
use docker_net_dhcp.Shared.Text.{Text}

unfoldable pub hex_digit : ℕ → ℕ
hex_digit n = if ltb n 10 then b'0' + n else b'a' + (n - 10)

unfoldable pub hex_value : ℕ → Option ℕ
hex_value c =
    if leb b'0' c && leb c b'9'
    then some (c - b'0')
    else if leb b'a' c && leb c b'f'
    then some (c - b'a' + 10)
    else if leb b'A' c && leb c b'F'
    then some (c - b'A' + 10)
    else none

-- %02x of a byte
unfoldable pub hex_byte : ℕ → Text
unfolding hex_digit
hex_byte b = hex_digit (b / 16) ∷ hex_digit (b % 16) ∷ []

-- hex.EncodeToString
unfoldable pub encode_hex : List ℕ → Text
encode_hex [] = []
encode_hex (b ∷ bs) = hex_byte b ++ encode_hex bs

-- two hexadecimal digits
unfoldable pub hex_pair : ℕ → ℕ → Option ℕ
unfolding hex_value
hex_pair h l = elim (hex_value h) [
  | none ↦ none
  | some x ↦ elim (hex_value l) [ none ↦ none | some y ↦ some (16 * x + y) ]
]

unfoldable pub digits_value : ℕ → Text → Option ℕ
digits_value n [] = some n
digits_value n (c ∷ s) = elim (hex_value c) [ none ↦ none | some x ↦ digits_value (16 * n + x) s ]

-- strconv.ParseUint(s, 16, 8): an error on the empty text, on a byte that is no digit, and on a
-- value above 255
unfoldable pub parse_uint8 : Text → Option ℕ
unfolding digits_value
parse_uint8 [] = none
parse_uint8 (c ∷ s) = elim (digits_value 0 (c ∷ s)) [
  | none ↦ none
  | some n ↦ if ltb 255 n then none else some n
]

hex_value-hex_digit : (n : ℕ) → n < 16 → hex_value (hex_digit n) ≡ some n
unfolding hex_value hex_digit
hex_value-hex_digit n h = ground arith

pub hex_pair-hex_byte :
    (b : ℕ) → b < 256 → hex_pair (hex_digit (b / 16)) (hex_digit (b % 16)) ≡ some b
unfolding hex_pair
hex_pair-hex_byte b h =
    ground (
      arith,
      hex_value-hex_digit (b / 16) (omega arith),
      hex_value-hex_digit (b % 16) (omega arith),
    )

-- What `%02x` writes of a byte, `ParseUint` reads back.
pub parse_uint8-hex_byte : (b : ℕ) → b < 256 → parse_uint8 (hex_byte b) ≡ some b
unfolding parse_uint8 hex_byte digits_value
parse_uint8-hex_byte b h =
    ground (
      arith,
      hex_value-hex_digit (b / 16) (omega arith),
      hex_value-hex_digit (b % 16) (omega arith),
    )

-- No digit is a colon or a hyphen.
pub hex_digit_ne_separator :
    (n : ℕ) → n < 16 → ((hex_digit n == b':') || (hex_digit n == b'-')) ≡ false
unfolding hex_digit
hex_digit_ne_separator n h = ground arith
