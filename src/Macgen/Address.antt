-- ===== src/Macgen/Address.antt =====
-- `net.ParseMAC` of Go's standard library, which pkg/macgen/macgen.go calls: six, eight or twenty
-- bytes, in pairs of digits behind colons or hyphens or in groups of four digits behind dots.
use docker_net_dhcp.Shared.{
  ℕ, zero, suc, ◌+◌, ◌*◌, ◌/◌, ◌%◌, List, [], ◌∷◌, Bool, ltb, ◌==◌, ◌||◌, not, if◌then◌else◌,
  Option, none, some, length, get_or,
}
use docker_net_dhcp.Shared.Text.{Text}
use docker_net_dhcp.Macgen.Hex.{hex_pair}

-- `n` pairs of digits, each but the last followed by `sep`
unfoldable pub parse_pairs : ℕ → ℕ → Text → Option (List ℕ)
parse_pairs zero sep s = some []
parse_pairs (suc n) sep (h ∷ l ∷ []) = elim (hex_pair h l) [
  | none ↦ none
  | some b ↦ elim (parse_pairs n sep []) [ none ↦ none | some bs ↦ some (b ∷ bs) ]
]
parse_pairs (suc n) sep (h ∷ l ∷ c ∷ s) =
    if c == sep
    then elim (hex_pair h l) [
      | none ↦ none
      | some b ↦ elim (parse_pairs n sep s) [ none ↦ none | some bs ↦ some (b ∷ bs) ]
    ]
    else none
parse_pairs (suc n) sep s = none

-- `n` groups of four digits, each but the last followed by a dot
unfoldable pub parse_groups : ℕ → Text → Option (List ℕ)
parse_groups zero s = some []
parse_groups (suc n) (a ∷ b ∷ c ∷ d ∷ []) = elim (hex_pair a b) [
  | none ↦ none
  | some x ↦ elim (hex_pair c d) [
    | none ↦ none
    | some y ↦ elim (parse_groups n []) [ none ↦ none | some bs ↦ some (x ∷ y ∷ bs) ]
  ]
]
parse_groups (suc n) (a ∷ b ∷ c ∷ d ∷ e ∷ s) =
    if e == b'.'
    then elim (hex_pair a b) [
      | none ↦ none
      | some x ↦ elim (hex_pair c d) [
        | none ↦ none
        | some y ↦ elim (parse_groups n s) [ none ↦ none | some bs ↦ some (x ∷ y ∷ bs) ]
      ]
    ]
    else none
parse_groups (suc n) s = none

is_width : ℕ → Bool
is_width n = n == 6 || n == 8 || n == 20

unfoldable pub parse_mac : Text → Option (List ℕ)
unfolding parse_pairs parse_groups is_width
parse_mac s =
    let size = length s in
    let third = get_or s 2 0 in
    if ltb size 14
    then none
    else if third == b':' || third == b'-'
    then (if not ((size + 1) % 3 == 0)
        then none
        else if is_width ((size + 1) / 3)
        then parse_pairs ((size + 1) / 3) third s
        else none)
    else if get_or s 4 0 == b'.'
    then (if not ((size + 1) % 5 == 0)
        then none
        else if is_width (2 * (size + 1) / 5)
        then parse_groups ((size + 1) / 5) s
        else none)
    else none
