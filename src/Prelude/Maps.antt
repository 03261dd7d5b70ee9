-- ===== src/Prelude/Maps.antt =====
-- A Go map as an association list, over keys with a decidable test.
use Prim.Native.String.{String}
use mathlib.Core.Path.{◌≡◌, refl}
use mathlib.Core.Option.{Option, none, some}
use mathlib.Core.Logic.{inl, inr}
use mathlib.Core.List.{List, [], ◌∷◌}
use native.Mathlib.Omega.{arith}
use text.Mathlib.Text.{◌==◌ as str_eq}
use text.Mathlib.TextEquality.{eq_iff}
use fandos.Prelude.Tests.{if◌then◌else◌, if-both, Bool-cases}
use fandos.Prelude.Lists.{length, All}
use Prim.Native.Nat.{◌+◌, ◌≤◌}

abbrev pub Dict {ℓ} : Type ℓ → Type ℓ
Dict V = List (String × V)

module _ {ℓ} {V : Type ℓ} where
  -- `m[key]` with its `ok`.
  unfoldable pub lookup : String → Dict V → Option V
  lookup key [] = none
  lookup key ((other, value) ∷ rest) =
      let further = lookup key rest in if str_eq other key then some value else further

  -- `m[key] = value`, in the place of the old entry.
  unfoldable pub insert : String → V → Dict V → Dict V
  insert key value [] = (key, value) ∷ []
  insert key value ((other, old) ∷ rest) =
      let further = (other, old) ∷ insert key value rest in
      if str_eq other key then (key, value) ∷ rest else further

  -- Only the entry of the key that is written changes.
  pub lookup-insert :
      (key asked : String) (value : V) (entries : Dict V)
      → lookup asked (insert key value entries)
        ≡ (if str_eq key asked then some value else lookup asked entries)
  unfolding lookup insert
  lookup-insert key asked value [] = refl
  lookup-insert key asked value ((other, old) ∷ rest) =
      let further = lookup-insert key asked value rest in
      ground (arith, further, eq_iff other asked, eq_iff key asked, eq_iff other key)

  -- `delete(m, key)`.
  unfoldable pub remove : String → Dict V → Dict V
  remove key [] = []
  remove key ((other, value) ∷ rest) =
      let further = remove key rest in
      if str_eq other key then further else (other, value) ∷ further

  -- A change of the object that the entry of a key points to, if there is one.
  unfoldable pub adjust : String → V → Dict V → Dict V
  adjust key value [] = []
  adjust key value ((other, old) ∷ rest) =
      let further = adjust key value rest in
      (if str_eq other key then (other, value) else (other, old)) ∷ further

  pub length-remove :
      (key : String) (entries : Dict V) → length (remove key entries) ≤ length entries
  unfolding remove
  length-remove key [] = omega arith
  length-remove key ((other, value) ∷ rest) = ground (arith, length-remove key rest)

  pub length-adjust :
      (key : String) (value : V) (entries : Dict V)
      → length (adjust key value entries) ≡ length entries
  unfolding adjust
  length-adjust key value [] = refl
  length-adjust key value ((other, old) ∷ rest) = omega (arith, length-adjust key value rest)

  pub length-insert :
      (key : String) (value : V) (entries : Dict V)
      → length (insert key value entries) ≤ length entries + 1
  unfolding insert
  length-insert key value [] = omega arith
  length-insert key value ((other, old) ∷ rest) = ground (arith, length-insert key value rest)

module _ {ℓ κ} {V : Type ℓ} (P : V → Type κ) where
  -- Every value has the property.
  abbrev pub AllValues : Dict V → Type κ
  AllValues = All (λ (entry : String × V). P entry.1)

  pub AllValues-remove :
      (key : String) (entries : Dict V) → AllValues entries → AllValues (remove key entries)
  unfolding remove
  AllValues-remove key [] h = h
  AllValues-remove key ((other, value) ∷ rest) h =
      if-both AllValues (str_eq other key) (λ e. AllValues-remove key rest h.1)
        (λ e. (h.0, AllValues-remove key rest h.1))

  pub AllValues-adjust :
      (key : String) (value : V) (entries : Dict V)
      → P value
      → AllValues entries
      → AllValues (adjust key value entries)
  unfolding adjust
  AllValues-adjust key value [] p h = h
  AllValues-adjust key value ((other, old) ∷ rest) p h = (
    if-both (λ (entry : String × V). P entry.1) (str_eq other key) (λ e. p) (λ e. h.0),
    AllValues-adjust key value rest p h.1,
  )

  pub AllValues-insert :
      (key : String) (value : V) (entries : Dict V)
      → P value
      → AllValues entries
      → AllValues (insert key value entries)
  unfolding insert
  AllValues-insert key value [] p h = (p, tt)
  AllValues-insert key value ((other, old) ∷ rest) p h =
      if-both AllValues (str_eq other key) (λ e. (p, h.1))
        (λ e. (h.0, AllValues-insert key value rest p h.1))

  pub AllValues-lookup :
      (key : String) (entries : Dict V) (value : V)
      → AllValues entries
      → lookup key entries ≡ some value
      → P value
  unfolding lookup
  AllValues-lookup key [] value h at = cc
  AllValues-lookup key ((other, old) ∷ rest) value h at = elim (Bool-cases (str_eq other key)) [
    | inl e ↦
        let same : some old ≡ some value = rw e at at in let back : value ≡ old = cc in rw back h.0
    | inr e ↦ AllValues-lookup key rest value h.1 (rw e at at)
  ]
