-- ===== src/Shared/Dict/Distinct.antt =====
-- Association lists in which each key stands once, as in a map.
use docker_net_dhcp.Shared.Text.{Text, str_eq, str_eq_iff}
use docker_net_dhcp.Shared.Dict.{Dict, put, del, keys, member}
use mathlib.Core.Path.{◌≡◌, refl}
use mathlib.Core.Bool.{false, ◌||◌}
use mathlib.Core.List.{[], ◌∷◌}
use native.Mathlib.Omega.{arith}

module _ {ℓ} {V : Type ℓ} where
  abbrev pub IsDistinct : Dict V → Type 0
  IsDistinct [] = Unit
  IsDistinct ((k, v) ∷ m) = (member k (keys m) ≡ false) × IsDistinct m

  member-put :
      (k j : Text) (v : V) (m : Dict V)
      → member j (keys (put k v m)) ≡ (str_eq k j || member j (keys m))
  unfolding put member
  member-put k j v [] = refl
  member-put k j v ((i, w) ∷ m) =
      ground (arith, member-put k j v m, str_eq_iff i k, str_eq_iff i j, str_eq_iff k j)

  member-del :
      (k j : Text) (m : Dict V) → member j (keys m) ≡ false → member j (keys (del k m)) ≡ false
  unfolding del member
  member-del k j [] h = refl
  member-del k j ((i, w) ∷ m) h = ground (arith, member-del k j m)

  pub put-IsDistinct : (k : Text) (v : V) (m : Dict V) → IsDistinct m → IsDistinct (put k v m)
  unfolding put member
  put-IsDistinct k v [] d = ground arith
  put-IsDistinct k v ((i, w) ∷ m) d =
      ground (arith, put-IsDistinct k v m, member-put k i v m, str_eq_iff i k, str_eq_iff k i)

  pub del-IsDistinct : (k : Text) (m : Dict V) → IsDistinct m → IsDistinct (del k m)
  unfolding del
  del-IsDistinct k [] d = tt
  del-IsDistinct k ((i, w) ∷ m) d = ground (arith, del-IsDistinct k m, member-del k i m)
