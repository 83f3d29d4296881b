-- ===== src/Json.antt =====
-- JSON documents as Go's encoding/json writes them, by the `json` tags of a record: `omitempty` leaves
-- out an empty string and a nil or empty map. A document is a tree; how the standard library spells
-- it in bytes is not modelled. The child reads documents.
pub mod Decode
use docker_net_dhcp.Shared.{ℕ, [], ◌∷◌, Bool, Option, none, some, if◌then◌else◌}
use docker_net_dhcp.Shared.Text.{Text, is_empty}
use docker_net_dhcp.Shared.Dict.{Dict}
use docker_net_dhcp.Driver.{Duration}

-- `time` is the text of an instant in RFC 3339 form.
mutual
  pub data Json : Type 0 where
    null : Json
    boolean : Bool → Json
    number : Duration → Json
    string : Text → Json
    time : ℕ → Json
    array : Items → Json
    object : Fields → Json

  pub data Items : Type 0 where
    last : Items
    item : Json → Items → Items

  pub data Fields : Type 0 where
    end : Fields
    field : Text → Json → Fields → Fields

-- a string field that is marked `omitempty`
unfoldable pub omit_empty : Text → Text → Fields → Fields
omit_empty name s rest = if is_empty s then rest else field name (string s) rest

unfoldable pub encode_dict {ℓ} : {V : Type ℓ} → (V → Json) → Dict V → Fields
encode_dict encode [] = end
encode_dict encode ((k, v) ∷ m) = field k (encode v) (encode_dict encode m)

-- a map field that is marked `omitempty`
unfoldable pub omit_empty_map {ℓ} :
    {V : Type ℓ} → Text → (V → Json) → Option (Dict V) → Fields → Fields
unfolding encode_dict
omit_empty_map name encode none rest = rest
omit_empty_map name encode (some []) rest = rest
omit_empty_map name encode (some (e ∷ m)) rest =
    field name (object (encode_dict encode (e ∷ m))) rest
