-- ===== src/Base/Dict.antt =====
-- Python's `dict` with text keys: an association list in insertion order. Writing a key that is
-- there replaces its value in place.
use Prim.Native.String.{String}
use mathlib.Core.Path.{◌≡◌, refl}
use mathlib.Core.Bool.{true, false, ◌||◌}
use mathlib.Core.Logic.{inl, inr}
use mathlib.Core.List.{List, [], ◌∷◌}
use mathlib.Core.Option.{Option, none, some}
use native.Mathlib.Omega.{arith}
use agenstfer_agi.Base.Tests.{if◌then◌else◌, Bool-cases}
use agenstfer_agi.Base.Sets.{elem, Distinct}
use agenstfer_agi.Base.Texts.{◌==◌, eq_iff}

abbrev pub Dict {ℓ} : Type ℓ → Type ℓ
Dict V = List (String × V)

module _ {ℓ} {V : Type ℓ} where
  unfoldable pub get : String → Dict V → Option V
  get k [] = none
  get k ((j, v) ∷ d) = if j == k then some v else get k d

  unfoldable pub put : String → V → Dict V → Dict V
  put k v [] = (k, v) ∷ []
  put k v ((j, w) ∷ d) = if j == k then (k, v) ∷ d else (j, w) ∷ put k v d

  unfoldable pub keys : Dict V → List String
  keys [] = []
  keys ((j, v) ∷ d) = j ∷ keys d

  pub get-put :
      (k j : String) (v : V) (d : Dict V) → get j (put k v d) ≡ (if k == j then some v else get j d)
  unfolding get put
  get-put k j v [] = refl
  get-put k j v ((i, w) ∷ d) = ground (arith, eq_iff k j, eq_iff i k, eq_iff i j, get-put k j v d)

module _ {ℓ} {V : Type ℓ} where
  pub get-put_same : (k : String) (v : V) (d : Dict V) → get k (put k v d) ≡ some v
  unfolding get put
  get-put_same k v d = ground (arith, get-put k k v d, eq_iff k k)

  pub elem-keys-put :
      (x k : String) (v : V) (d : Dict V) → elem x (keys (put k v d)) ≡ (k == x || elem x (keys d))
  unfolding elem keys put
  elem-keys-put x k v [] = refl
  elem-keys-put x k v ((j, w) ∷ d) =
      ground (arith, elem-keys-put x k v d, eq_iff j k, eq_iff k x, eq_iff j x)

  pub Distinct-keys-put :
      (k : String) (v : V) (d : Dict V) → Distinct (keys d) → Distinct (keys (put k v d))
  unfolding elem keys put
  Distinct-keys-put k v [] h = (refl, tt)
  Distinct-keys-put k v ((j, w) ∷ d) h = elim (Bool-cases (j == k)) [
    | inl e ↦ rw e (ground (arith, eq_iff j k))
    | inr e ↦
        rw e (
          ground (arith, elem-keys-put j k v d, eq_iff j k, eq_iff k j),
          Distinct-keys-put k v d h.1,
        )
  ]

  pub get-of_keys :
      (x : String) (d : Dict V) → elem x (keys d) ≡ true → (v : V) × (get x d ≡ some v)
  unfolding elem keys get
  get-of_keys x [] h = cc
  get-of_keys x ((j, w) ∷ d) h = elim (Bool-cases (j == x)) [
    | inl e ↦ (w, ground arith)
    | inr e ↦ let (v, p) = get-of_keys x d (ground arith) in (v, ground arith)
  ]

  pub keys-of_get : (x : String) (v : V) (d : Dict V) → get x d ≡ some v → elem x (keys d) ≡ true
  unfolding elem keys get
  keys-of_get x v [] h = cc
  keys-of_get x v ((j, w) ∷ d) h = ground (arith, keys-of_get x v d)

  pub keys-of_none : (x : String) (d : Dict V) → get x d ≡ none → elem x (keys d) ≡ false
  unfolding elem keys get
  keys-of_none x [] h = refl
  keys-of_none x ((j, w) ∷ d) h = ground (arith, keys-of_none x d)
