-- ===== src/Prelude/Dicts.antt =====
-- A `dict` with texts as keys, in the order of insertion.
use mathlib.Core.Path.{◌≡◌, refl}
use mathlib.Core.Bool.{true}
use mathlib.Core.List.{List, [], ◌∷◌, map}
use mathlib.Core.Option.{Option, none, some}
use native.Mathlib.Omega.{arith}
use text.Mathlib.Text.{◌==◌ as str_eq}
use text.Mathlib.TextEquality.{eq_iff}
use Prim.Native.String.{String}
use mathlib.Core.Logic.{inl, inr}
use tename.Prelude.Tests.{if◌then◌else◌, Bool-cases}
use tename.Prelude.Lists.{any}

module _ {ℓ} {A : Type ℓ} where
  -- d.get(key)
  unfoldable pub lookup : String → List (String × A) → Option A
  lookup key [] = none
  lookup key ((k, v) ∷ rest) = let later = lookup key rest in if str_eq k key then some v else later

  -- d[key] = value
  unfoldable pub assign : String → A → List (String × A) → List (String × A)
  assign key value [] = (key, value) ∷ []
  assign key value ((k, v) ∷ rest) =
      let later = assign key value rest in
      if str_eq k key then (key, value) ∷ rest else (k, v) ∷ later

  -- d.pop(key, None): a key stands at most once
  unfoldable pub pop : String → List (String × A) → List (String × A)
  pop key [] = []
  pop key ((k, v) ∷ rest) =
      let others = pop key rest in if str_eq k key then others else (k, v) ∷ others

  pub lookup-assign :
      (j key : String) (value : A) (d : List (String × A))
      → lookup j (assign key value d) ≡ (if str_eq key j then some value else lookup j d)
  unfolding lookup assign
  lookup-assign j key value [] = refl
  lookup-assign j key value ((k, v) ∷ rest) =
      ground (arith, eq_iff key j, eq_iff k key, eq_iff k j, lookup-assign j key value rest)

  pub lookup-pop :
      (j key : String) (d : List (String × A))
      → lookup j (pop key d) ≡ (if str_eq key j then none else lookup j d)
  unfolding lookup pop
  lookup-pop j key [] = ground (arith, eq_iff key j)
  lookup-pop j key ((k, v) ∷ rest) =
      ground (arith, eq_iff key j, eq_iff k key, eq_iff k j, lookup-pop j key rest)

  -- A key that is there has a value.
  pub lookup_of_any :
      (key : String) (d : List (String × A))
      → any (λ k. str_eq k key) (map (λ e. e.0) d) ≡ true
      → (v : A) × (lookup key d ≡ some v)
  unfolding lookup
  lookup_of_any key [] h = cc h
  lookup_of_any key ((k, v) ∷ rest) h = elim (Bool-cases (str_eq k key)) [
    | inl same ↦ (v, rw same refl)
    | inr other ↦ let later = lookup_of_any key rest (rw other at h) in (later.0, rw other later.1)
  ]
