-- ===== src/Shared/Dict/Each.antt =====
-- A property of every value of a map.
use docker_net_dhcp.Shared.Tests.{Bool-cases, Option-cases}
use docker_net_dhcp.Shared.Text.{Text, str_eq}
use docker_net_dhcp.Shared.Dict.{Dict, get, put, del}
use docker_net_dhcp.Shared.Dict.Range.{sweep, sweep_key}
use mathlib.Core.Path.{◌≡◌, subst}
use mathlib.Core.Logic.{inl, inr}
use mathlib.Core.Bool.{Bool, true}
use mathlib.Core.List.{List, [], ◌∷◌}
use mathlib.Core.Option.{some}

module _ {ℓ} {A : Type ℓ} where
  -- a property of every value of a map
  abbrev pub Each {κ} : (A → Type κ) → Dict A → Type κ
  Each P [] = Unit
  Each P ((k, v) ∷ m) = P v × Each P m

  pub each {κ} : {P : A → Type κ} → ((a : A) → P a) → (m : Dict A) → Each P m
  each p [] = tt
  each p ((k, v) ∷ m) = (p v, each p m)

  pub Each-weaken {κ κ'} :
      {P : A → Type κ} {Q : A → Type κ'}
      → ((a : A) → P a → Q a)
      → (m : Dict A) → Each P m
      → Each Q m
  Each-weaken f [] ps = tt
  Each-weaken f ((k, v) ∷ m) ps = (f v ps.0, Each-weaken f m ps.1)

  module _ {κ} (P : A → Type κ) where
    pub put-Each : (k : Text) (v : A) (m : Dict A) → P v → Each P m → Each P (put k v m)
    unfolding put
    put-Each k v [] p h = (p, tt)
    put-Each k v ((j, w) ∷ m) p h = elim (Bool-cases (str_eq j k)) [
      | inl y ↦ rw (put, y) (p, h.1)
      | inr n ↦ rw (put, n) (h.0, put-Each k v m p h.1)
    ]

    pub del-Each : (k : Text) (m : Dict A) → Each P m → Each P (del k m)
    unfolding del
    del-Each k [] h = tt
    del-Each k ((j, w) ∷ m) h = elim (Bool-cases (str_eq j k)) [
      | inl y ↦ rw (del, y) (del-Each k m h.1)
      | inr n ↦ rw (del, n) (h.0, del-Each k m h.1)
    ]

    pub get-Each : (k : Text) (m : Dict A) (v : A) → get k m ≡ some v → Each P m → P v
    unfolding get
    get-Each k [] v g h = absurd cc
    get-Each k ((j, w) ∷ m) v g h = elim (Bool-cases (str_eq j k)) [
      | inl y ↦ let same : w ≡ v = cc (rw y at g) in subst P same h.0
      | inr n ↦ get-Each k m v (rw n at g) h.1
    ]

  -- what every deletion keeps, a `range` that deletes keeps
  pub sweep-keeps {κ} :
      (Q : Dict A → Type κ)
      → ((k : Text) (m : Dict A) → Q m → Q (del k m))
      → (test : Text → A → Bool) (ks : List Text) (m : Dict A) (changed : Bool) → Q m
      → Q (sweep test ks (m, changed)).0
  unfolding sweep sweep_key
  sweep-keeps Q keeps test [] m changed q = q
  sweep-keeps Q keeps test (k ∷ ks) m changed q = elim (Option-cases (get k m)) [
    | inl g ↦ rw (sweep, sweep_key, g) (sweep-keeps Q keeps test ks m changed q)
    | inr (v, g) ↦ elim (Bool-cases (test k v)) [
      | inl y ↦
          rw (sweep, sweep_key, g, y) (sweep-keeps Q keeps test ks (del k m) true (keeps k m q))
      | inr n ↦ rw (sweep, sweep_key, g, n) (sweep-keeps Q keeps test ks m changed q)
    ]
  ]
