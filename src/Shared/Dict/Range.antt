-- ===== src/Shared/Dict/Range.antt =====
-- A `range` over a map that deletes entries as it goes. Go visits each key once, with the value it
-- has when the loop comes to it, and skips a key that the loop has deleted before.
use docker_net_dhcp.Shared.Tests.{if◌then◌else◌}
use docker_net_dhcp.Shared.Text.{Text, str_eq, str_eq_iff}
use docker_net_dhcp.Shared.Dict.{Dict, get, del, keys, member, get-del, get-keys}
use mathlib.Core.Path.{◌≡◌, refl}
use mathlib.Core.Bool.{Bool, true, false}
use mathlib.Core.List.{List, [], ◌∷◌}
use mathlib.Core.Option.{Option, none, some}
use native.Mathlib.Omega.{arith}

module _ {ℓ} {V : Type ℓ} where
  -- one round of `for k, v := range m { if test(k, v) { delete(m, k); changed = true } }`
  unfoldable pub sweep_key : (Text → V → Bool) → Text → Dict V × Bool → Dict V × Bool
  sweep_key test k (m, changed) = elim (get k m) [
    | none ↦ (m, changed)
    | some v ↦ if test k v then (del k m, true) else (m, changed)
  ]

  unfoldable pub sweep : (Text → V → Bool) → List Text → Dict V × Bool → Dict V × Bool
  unfolding sweep_key
  sweep test [] s = s
  sweep test (k ∷ ks) s = sweep test ks (sweep_key test k s)

  -- an entry that passes the test is dropped
  abbrev pub spare : (Text → V → Bool) → Text → Option V → Option V
  spare test k none = none
  spare test k (some v) = if test k v then none else some v

  spare_idem :
      (test : Text → V → Bool) (k : Text) (o : Option V)
      → spare test k (spare test k o) ≡ spare test k o
  spare_idem test k o = ground arith

  get-sweep_key :
      (test : Text → V → Bool) (k j : Text) (s : Dict V × Bool)
      → get j (sweep_key test k s).0 ≡ (if str_eq k j then spare test j (get j s.0) else get j s.0)
  unfolding sweep_key
  get-sweep_key test k j (m, changed) = ground (arith, get-del k j m, str_eq_iff k j)

  get-sweep_keys :
      (test : Text → V → Bool) (ks : List Text) (j : Text) (s : Dict V × Bool)
      → get j (sweep test ks s).0 ≡ (if member j ks then spare test j (get j s.0) else get j s.0)
  unfolding sweep member
  get-sweep_keys test [] j s = refl
  get-sweep_keys test (k ∷ ks) j s = ground (
    arith,
    get-sweep_keys test ks j (sweep_key test k s),
    get-sweep_key test k j s,
    spare_idem test j (get j s.0),
  )

  -- The loop over all keys drops exactly the entries that pass the test.
  pub get-sweep :
      (test : Text → V → Bool) (j : Text) (m : Dict V) (changed : Bool)
      → get j (sweep test (keys m) (m, changed)).0 ≡ spare test j (get j m)
  get-sweep test j m changed =
      ground (arith, get-sweep_keys test (keys m) j (m, changed), get-keys j m)

  -- A flag that stays false tells that nothing was dropped.
  pub sweep_unchanged :
      (test : Text → V → Bool) (ks : List Text) (m : Dict V) (changed : Bool)
      → (sweep test ks (m, changed)).1 ≡ false
      → (sweep test ks (m, changed) ≡ (m, changed)) × (changed ≡ false)
  unfolding sweep
  sweep_unchanged test [] m changed h = (refl, h)
  sweep_unchanged test (k ∷ ks) m changed h =
      ground (arith, sweep_unchanged test ks m changed, sweep_unchanged test ks (del k m) true)
