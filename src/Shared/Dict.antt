-- ===== src/Shared/Dict.antt =====
-- Go maps with string keys, as association lists. The order of the list is the order in which a
-- `range` over the map meets the keys: Go leaves it open, so theorems hold for every order.
pub mod Range
pub mod Distinct
pub mod Each
use docker_net_dhcp.Shared.Tests.{if◌then◌else◌}
use docker_net_dhcp.Shared.Text.{Text, str_eq, str_eq_iff, str_eq_refl}
use mathlib.Core.Path.{◌≡◌, refl}
use mathlib.Core.Bool.{Bool, true, false, ◌||◌}
use mathlib.Core.List.{List, [], ◌∷◌}
use mathlib.Core.Option.{Option, none, some}
use native.Mathlib.Omega.{arith}

abbrev pub Dict {ℓ} : Type ℓ → Type ℓ
Dict V = List (Text × V)

-- k is one of the keys
unfoldable pub member : Text → List Text → Bool
member k [] = false
member k (j ∷ js) = str_eq j k || member k js

module _ {ℓ} {V : Type ℓ} where
  -- v, ok := m[k]
  unfoldable pub get : Text → Dict V → Option V
  get k [] = none
  get k ((j, v) ∷ m) = if str_eq j k then some v else get k m

  -- m[k] = v
  unfoldable pub put : Text → V → Dict V → Dict V
  put k v [] = (k, v) ∷ []
  put k v ((j, w) ∷ m) = if str_eq j k then (k, v) ∷ m else (j, w) ∷ put k v m

  -- delete(m, k)
  unfoldable pub del : Text → Dict V → Dict V
  del k [] = []
  del k ((j, v) ∷ m) = let rest = del k m in if str_eq j k then rest else (j, v) ∷ rest

  -- the keys that a `range` over the map meets
  abbrev pub keys : Dict V → List Text
  keys [] = []
  keys ((j, v) ∷ m) = j ∷ keys m

  -- the values, in the order of the keys
  abbrev pub values : Dict V → List V
  values [] = []
  values ((j, v) ∷ m) = v ∷ values m

  -- the keys tell whether a key is present
  unfoldable pub has : Text → Dict V → Bool
  has k m = elim (get k m) [ none ↦ false | some v ↦ true ]

  pub get-put :
      (k j : Text) (v : V) (m : Dict V)
      → get j (put k v m) ≡ (if str_eq k j then some v else get j m)
  unfolding get put
  get-put k j v [] = refl
  get-put k j v ((i, w) ∷ m) =
      ground (arith, str_eq_iff k j, str_eq_iff i k, str_eq_iff i j, get-put k j v m)

  pub get-del : (k j : Text) (m : Dict V) → get j (del k m) ≡ (if str_eq k j then none else get j m)
  unfolding get del
  get-del k j [] = ground arith
  get-del k j ((i, w) ∷ m) =
      ground (arith, str_eq_iff k j, str_eq_iff i k, str_eq_iff i j, get-del k j m)

  pub get-put_self : (k : Text) (v : V) (m : Dict V) → get k (put k v m) ≡ some v
  get-put_self k v m = rw (get-put, str_eq_refl k)

  pub get-keys : (k : Text) (m : Dict V) → member k (keys m) ≡ false → get k m ≡ none
  unfolding get member
  get-keys k [] h = refl
  get-keys k ((j, v) ∷ m) h = ground (arith, get-keys k m)
