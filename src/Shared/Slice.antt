-- ===== src/Shared/Slice.antt =====
-- Filtering a Go slice in its own backing array: `out := xs[:0]` and then, for each entry `x` that
-- passes the test, `out = append(out, x)`, which overwrites the array while it is being read.
use docker_net_dhcp.Shared.Tests.{Option-cases, Bool-cases}
use docker_net_dhcp.Shared.Lists.{length, take, drop, get_elem?, set, keep}
use Prim.Native.Nat.{ℕ, zero, suc, ◌+◌, ◌≤◌, ◌<◌}
use mathlib.Core.Path.{◌≡◌, refl, ap, sym, ◌∙◌}
use mathlib.Core.Logic.{inl, inr}
use mathlib.Core.Bool.{Bool, true, false}
use mathlib.Core.List.{List, [], ◌∷◌, ◌++◌, append-nil, append_assoc}
use mathlib.Core.Option.{none, some}
use native.Mathlib.Omega.{arith}

module _ {ℓ} {A : Type ℓ} where
  -- the rounds left, the index that is read, the length of `out`, and the array
  unfoldable pub compact_from : (A → Bool) → ℕ → ℕ → ℕ → List A → List A
  compact_from test zero read write a = take write a
  compact_from test (suc n) read write a = elim (get_elem? a read) [
    | none ↦ take write a
    | some x ↦ elim (test x) [
      | true ↦ compact_from test n (suc read) (suc write) (set a write x)
      | false ↦ compact_from test n (suc read) write a
    ]
  ]

  unfoldable pub compact : (A → Bool) → List A → List A
  unfolding compact_from
  compact test xs = compact_from test (length xs) 0 0 xs

  drop-get_elem? :
      (a : List A) (i : ℕ) (x : A) → get_elem? a i ≡ some x → drop i a ≡ x ∷ drop (suc i) a
  drop-get_elem? [] i x h = ground arith
  drop-get_elem? (y ∷ a) zero x h = ground arith
  drop-get_elem? (y ∷ a) (suc i) x h = drop-get_elem? a i x h

  drop-get_elem?-none : (a : List A) (i : ℕ) → get_elem? a i ≡ none → drop i a ≡ []
  drop-get_elem?-none [] zero h = refl
  drop-get_elem?-none [] (suc i) h = refl
  drop-get_elem?-none (y ∷ a) zero h = ground arith
  drop-get_elem?-none (y ∷ a) (suc i) h = drop-get_elem?-none a i h

  drop-set : (a : List A) (i j : ℕ) (x : A) → i < j → drop j (set a i x) ≡ drop j a
  drop-set [] i j x h = refl
  drop-set (y ∷ a) i zero x h = absurd (omega arith)
  drop-set (y ∷ a) zero (suc j) x h = refl
  drop-set (y ∷ a) (suc i) (suc j) x h = drop-set a i j x (omega arith)

  take-set :
      (a : List A) (i : ℕ) (x : A) → i < length a → take (suc i) (set a i x) ≡ take i a ++ x ∷ []
  take-set [] i x h = absurd (omega arith)
  take-set (y ∷ a) zero x h = refl
  take-set (y ∷ a) (suc i) x h = ap (λ t. y ∷ t) (take-set a i x (omega arith))

  length-set : (a : List A) (i : ℕ) (x : A) → length (set a i x) ≡ length a
  length-set [] i x = refl
  length-set (y ∷ a) zero x = refl
  length-set (y ∷ a) (suc i) x = ap suc (length-set a i x)

  drop-length : (a : List A) (i : ℕ) → length a ≤ i → drop i a ≡ []
  drop-length [] zero h = refl
  drop-length [] (suc i) h = refl
  drop-length (y ∷ a) zero h = absurd (omega arith)
  drop-length (y ∷ a) (suc i) h = drop-length a i (omega arith)

  compact_from-keep :
      (test : A → Bool) (n read write : ℕ) (a : List A)
      → read + n ≡ length a
      → write ≤ read
      → compact_from test n read write a ≡ take write a ++ keep test (drop read a)
  unfolding compact_from keep
  compact_from-keep test zero read write a h w =
      rw (drop-length a read (omega arith)) (sym (append-nil (take write a)))
  compact_from-keep test (suc n) read write a h w = elim (Option-cases (get_elem? a read)) [
    | inl e ↦ rw (e, compact_from, drop-get_elem?-none a read e) (sym (append-nil (take write a)))
    | inr (x, e) ↦ elim (Bool-cases (test x)) [
      | inl t ↦
          rw (e, compact_from, t, drop-get_elem? a read x e, keep)
            (rw t (
              compact_from-keep test n (suc read) (suc write) (set a write x)
                (omega (arith, length-set a write x)) (omega arith)
              ∙ rw (take-set a write x (omega arith), drop-set a write (suc read) x (omega arith))
                  (append_assoc (take write a) (x ∷ []) _)))
      | inr f ↦
          rw (e, compact_from, f, drop-get_elem? a read x e, keep)
            (rw f (compact_from-keep test n (suc read) write a (omega arith) (omega arith)))
    ]
  ]

  -- Overwriting the array on the way does no harm: the result is that of a filter into a new slice.
  pub compact-keep : (test : A → Bool) (xs : List A) → compact test xs ≡ keep test xs
  unfolding compact
  compact-keep test xs = compact_from-keep test (length xs) 0 0 xs (omega arith) (omega arith)
