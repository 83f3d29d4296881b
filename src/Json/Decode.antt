-- ===== src/Json/Decode.antt =====
-- How Go's encoding/json reads a document into a value that is already there: `null` changes
-- nothing but a map, a field that the record does not have is skipped, a name matches whatever the
-- case of its (ASCII) letters, and an entry of a map starts from the zero value. `none` is an error,
-- for a value of the wrong kind. A time is not read into a string.
use docker_net_dhcp.Shared.{
  ℕ, ◌+◌, [], ◌∷◌, ◌++◌, Bool, false, ◌&&◌, Option, none, some, if◌then◌else◌, leb, ◌≡◌, refl, ◌∙◌,
  sym, ap, arith, append_assoc, append-nil,
}
use docker_net_dhcp.Shared.Text.{Text, str_eq, str_eq_iff}
use docker_net_dhcp.Shared.Dict.{Dict, put, keys, member}
use docker_net_dhcp.Shared.Dict.Distinct.{IsDistinct}
use docker_net_dhcp.Shared.Dict.Each.{Each}
use docker_net_dhcp.Driver.{Duration}
use docker_net_dhcp.Json.{
  Json, Fields, null, boolean, number, string, time, object, end, field, omit_empty, omit_empty_map,
  encode_dict,
}

abbrev lower : Text → Text
lower [] = []
lower (c ∷ s) = (if leb b'A' c && leb c b'Z' then c + 32 else c) ∷ lower s

unfoldable pub same_name : Text → Text → Bool
same_name k name = str_eq (lower k) (lower name)

unfoldable pub decode_string : Json → Text → Option Text
decode_string null s = some s
decode_string (string t) s = some t
decode_string _ s = none

unfoldable pub decode_bool : Json → Bool → Option Bool
decode_bool null b = some b
decode_bool (boolean c) b = some c
decode_bool _ b = none

unfoldable pub decode_number : Json → Duration → Option Duration
decode_number null d = some d
decode_number (number e) d = some e
decode_number _ d = none

unfoldable pub decode_time : Json → ℕ → Option ℕ
decode_time null t = some t
decode_time (time u) t = some u
decode_time _ t = none

module _ {ℓ ℓ'} {A : Type ℓ} {B : Type ℓ'} where
  -- change a value if there is one to change it with
  abbrev pub with_value : Option B → (B → A) → Option A
  with_value none f = none
  with_value (some b) f = some (f b)

-- what is left of a map that `omitempty` leaves out if it is empty
abbrev pub non_empty {ℓ} : {A : Type ℓ} → Option (Dict A) → Option (Dict A)
non_empty none = none
non_empty (some []) = none
non_empty (some (e ∷ m)) = some (e ∷ m)

module _ {ℓ} {A : Type ℓ} where
  -- the fields in the order of the document, each set by `set`
  unfoldable pub decode_fields : (Text → Json → A → Option A) → Fields → A → Option A
  decode_fields set end a = some a
  decode_fields set (field name v fs) a = elim (set name v a) [
    | none ↦ none
    | some b ↦ decode_fields set fs b
  ]

  unfoldable pub decode_object : (Text → Json → A → Option A) → Json → A → Option A
  unfolding decode_fields
  decode_object set null a = some a
  decode_object set (object fs) a = decode_fields set fs a
  decode_object set _ a = none

  -- the entries of a map, each decoded into the value `zero`
  unfoldable pub decode_entries : (Json → A → Option A) → A → Fields → Dict A → Option (Dict A)
  decode_entries decode zero end m = some m
  decode_entries decode zero (field k v fs) m = elim (decode v zero) [
    | none ↦ none
    | some a ↦ decode_entries decode zero fs (put k a m)
  ]

  -- a map that may be nil: `null` makes it nil, an object adds to it
  unfoldable pub decode_map :
      (Json → A → Option A) → A → Json → Option (Dict A) → Option (Option (Dict A))
  unfolding decode_entries
  decode_map decode zero null m = some none
  decode_map decode zero (object fs) none = with_value (decode_entries decode zero fs []) some
  decode_map decode zero (object fs) (some m) = with_value (decode_entries decode zero fs m) some
  decode_map decode zero _ m = none

  -- a field that `omitempty` may have left out
  pub decode_fields-omit_empty :
      (set : Text → Json → A → Option A) (name s : Text) (rest : Fields) (a b : A)
      → set name (string s) a ≡ some b
      → (s ≡ [] → a ≡ b)
      → decode_fields set (omit_empty name s rest) a ≡ decode_fields set rest b
  unfolding omit_empty decode_fields
  decode_fields-omit_empty set name [] rest a b h same = rw (same refl) refl
  decode_fields-omit_empty set name (c ∷ s) rest a b h same = rw h refl

  -- a map field that `omitempty` may have left out
  pub decode_fields-omit_empty_map {ℓ'} :
      (set : Text → Json → A → Option A) (name : Text) {V : Type ℓ'} (encode : V → Json)
      (m : Option (Dict V)) (rest : Fields) (a b : A)
      → ((e : Text × V) (t : Dict V)
          → m ≡ some (e ∷ t)
          → set name (object (encode_dict encode (e ∷ t))) a ≡ some b)
      → (non_empty m ≡ none → a ≡ b)
      → decode_fields set (omit_empty_map name encode m rest) a ≡ decode_fields set rest b
  unfolding omit_empty_map decode_fields encode_dict
  decode_fields-omit_empty_map set name encode none rest a b h same = rw (same refl) refl
  decode_fields-omit_empty_map set name encode (some []) rest a b h same = rw (same refl) refl
  decode_fields-omit_empty_map set name encode (some (e ∷ m)) rest a b h same = rw (h e m refl) refl

  abbrev pub map_values : (A → A) → Dict A → Dict A
  map_values f [] = []
  map_values f ((k, v) ∷ m) = (k, f v) ∷ map_values f m

  pub map_values-id : (m : Dict A) → map_values (λ v. v) m ≡ m
  map_values-id [] = refl
  map_values-id ((k, v) ∷ m) = ap (λ n. (k, v) ∷ n) (map_values-id m)

  put_new :
      (k : Text) (v : A) (m : Dict A) → member k (keys m) ≡ false → put k v m ≡ m ++ (k, v) ∷ []
  unfolding put member
  put_new k v [] h = refl
  put_new k v ((j, w) ∷ m) h = ground (arith, put_new k v m)

  keys-append :
      (j k : Text) (v : A) (m n : Dict A)
      → member j (keys (m ++ (k, v) ∷ n)) ≡ false
      → str_eq k j ≡ false
  unfolding member
  keys-append j k v [] n h = ground arith
  keys-append j k v ((i, w) ∷ m) n h = keys-append j k v m n (ground arith)

  member-keys :
      (k : Text) (v : A) (m n : Dict A) → IsDistinct (m ++ (k, v) ∷ n) → member k (keys m) ≡ false
  unfolding member
  member-keys k v [] n d = refl
  member-keys k v ((j, w) ∷ m) n d =
      ground
        (arith, keys-append j k v m n d.0, member-keys k v m n d.1, str_eq_iff j k, str_eq_iff k j)

  pub keys-map_values : (f : A → A) (m : Dict A) → keys (map_values f m) ≡ keys m
  keys-map_values f [] = refl
  keys-map_values f ((k, v) ∷ m) = ap (λ ks. k ∷ ks) (keys-map_values f m)

  pub map_values-IsDistinct : (f : A → A) (m : Dict A) → IsDistinct m → IsDistinct (map_values f m)
  map_values-IsDistinct f [] d = tt
  map_values-IsDistinct f ((k, v) ∷ m) d =
      (rw (keys-map_values f m) d.0, map_values-IsDistinct f m d.1)

  pub decode_entries-append :
      (decode : Json → A → Option A) (zero : A) (encode : A → Json) (norm : A → A)
      → (m acc : Dict A) → Each (λ a. decode (encode a) zero ≡ some (norm a)) m
      → IsDistinct (acc ++ map_values norm m)
      → decode_entries decode zero (encode_dict encode m) acc ≡ some (acc ++ map_values norm m)
  unfolding decode_entries encode_dict
  decode_entries-append decode zero encode norm [] acc back d = ap some (sym (append-nil acc))
  decode_entries-append decode zero encode norm ((k, v) ∷ m) acc back d =
      rw (back.0, put_new k (norm v) acc (member-keys k (norm v) acc (map_values norm m) d))
        (decode_entries-append decode zero encode norm m (acc ++ (k, norm v) ∷ []) back.1
            (rw (append_assoc acc ((k, norm v) ∷ []) (map_values norm m)) d)
          ∙ ap some (append_assoc acc ((k, norm v) ∷ []) (map_values norm m)))

  -- What was written of a map is read back, entry by entry.
  pub decode_map-encode :
      (decode : Json → A → Option A) (zero : A) (encode : A → Json) (norm : A → A)
      → (m : Dict A) → Each (λ a. decode (encode a) zero ≡ some (norm a)) m
      → IsDistinct m
      → decode_map decode zero (object (encode_dict encode m)) none
        ≡ some (some (map_values norm m))
  unfolding decode_map
  decode_map-encode decode zero encode norm m back d =
      rw (decode_entries-append decode zero encode norm m [] back (map_values-IsDistinct norm m d))
        refl
