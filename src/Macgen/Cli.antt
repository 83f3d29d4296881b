-- ===== src/Macgen/Cli.antt =====
-- cmd/docker-net-dhcp-macgen/main.go: the command line over pkg/macgen. The flags are parsed by
-- the standard library; what is left of them are the format, the `-duid` switch and the arguments.
use docker_net_dhcp.Shared.{
  List, [], ◌∷◌, ◌++◌, Bool, if◌then◌else◌, ◌≡◌, refl, true, ◌≢◌, ◌⊎◌, inl, inr, ◌∙◌,
}
use docker_net_dhcp.Shared.Text.{Text, text, str_eq}
use docker_net_dhcp.Shared.Result.{Result, ok, err}
use docker_net_dhcp.Macgen.Derive.{derived, generate-derived, IsSupported, format_mac_supported}
use docker_net_dhcp.Macgen.Parity.{generate_duid-generate}
use docker_net_dhcp.Macgen.{
  Error, Format, Options, join_bytes, duid_prefix, format_colon, format_hyphen, format_dot,
  generate, generate_duid,
}

-- what the process writes to its standard output or error, and how it ends
pub data Exit : Type 0 where
  prints : Text → Exit
  usage : Exit
  invalid_format : Text → Exit
  mac_error : Error → Exit
  duid_error : Error → Exit

print_duid : Result Error Text → Exit
print_duid (ok s) = prints s
print_duid (err e) = duid_error e

finish : Bool → Result Error Text → Exit
unfolding print_duid
finish duid (err e) = mac_error e
finish duid (ok mac) = if duid then print_duid (generate_duid mac) else prints mac

with_format : Text → Bool → Format → Exit
unfolding finish
with_format seed duid format = finish duid (generate (record { seed = seed; format = format }))

unfoldable pub main : Text → Bool → List Text → Exit
unfolding with_format
main format duid (seed ∷ []) =
    if str_eq format (text "colon")
    then with_format seed duid format_colon
    else if str_eq format (text "hyphen")
    then with_format seed duid format_hyphen
    else if str_eq format (text "dot")
    then with_format seed duid format_dot
    else invalid_format format
main format duid args = usage

with_format_duid :
    (seed : Text) (format : Format)
    → seed ≢ []
    → IsSupported format
    → with_format seed true format ≡ prints (duid_prefix ++ join_bytes b':' (derived seed))
unfolding with_format
with_format_duid seed format h supported =
    let (s, good) = format_mac_supported format (derived seed) supported in
    let opts : Options = record { seed = seed; format = format } in
    let made : generate opts ≡ ok s = generate-derived opts h ∙ good in
    rw (made, finish, generate_duid-generate opts s made)

-- With `-duid`, the command prints the same DUID whichever of its three formats is asked for.
pub main_duid :
    (format seed : Text)
    → seed ≢ []
    → (format ≡ format_colon) ⊎ ((format ≡ format_hyphen) ⊎ (format ≡ format_dot))
    → main format true (seed ∷ []) ≡ prints (duid_prefix ++ join_bytes b':' (derived seed))
unfolding main str_eq
main_duid format seed h (inl p) = rw p (with_format_duid seed format_colon h (inr (inl refl)))
main_duid format seed h (inr (inl p)) =
    rw p (with_format_duid seed format_hyphen h (inr (inr (inl refl))))
main_duid format seed h (inr (inr p)) =
    rw p (with_format_duid seed format_dot h (inr (inr (inr refl))))
