-- ===== src/Base/Maps.antt =====
-- Go's `map[string]V` as an association list; a key stands in it once after `insert`.
use mathlib.Core.Path.{◌≡◌, refl}
use mathlib.Core.Option.{Option, none, some}
use mathlib.Core.List.{List, [], ◌∷◌}
use native.Mathlib.Omega.{arith}
use s3proxy4gcs.Base.Tests.{if◌then◌else◌}
use s3proxy4gcs.Base.Strings.{Text, text_eq, text_eq_iff}

abbrev pub Dict {ℓ} : Type ℓ → Type ℓ
Dict V = List (Text × V)

module _ {ℓ} {V : Type ℓ} where
  unfoldable pub lookup : Text → Dict V → Option V
  lookup k [] = none
  lookup k ((j, v) ∷ m) = if text_eq j k then some v else lookup k m

  unfoldable pub insert : Text → V → Dict V → Dict V
  insert k v [] = (k, v) ∷ []
  insert k v ((j, w) ∷ m) = if text_eq j k then (k, v) ∷ m else (j, w) ∷ insert k v m

  unfoldable pub delete : Text → Dict V → Dict V
  delete k [] = []
  delete k ((j, w) ∷ m) = let rest = delete k m in if text_eq j k then rest else (j, w) ∷ rest

  pub lookup-insert :
      (k j : Text) (v : V) (m : Dict V)
      → lookup j (insert k v m) ≡ (if text_eq k j then some v else lookup j m)
  unfolding lookup insert
  lookup-insert k j v [] = refl
  lookup-insert k j v ((i, w) ∷ m) =
      ground (arith, text_eq_iff k j, text_eq_iff i k, text_eq_iff i j, lookup-insert k j v m)

  pub lookup-delete :
      (k j : Text) (m : Dict V) → lookup j (delete k m) ≡ (if text_eq k j then none else lookup j m)
  unfolding lookup delete
  lookup-delete k j [] = ground arith
  lookup-delete k j ((i, w) ∷ m) =
      ground (arith, text_eq_iff k j, text_eq_iff i k, text_eq_iff i j, lookup-delete k j m)

  -- A map holds each key once.
  abbrev pub HasDistinctKeys : Dict V → Type ℓ
  HasDistinctKeys [] = Unit
  HasDistinctKeys ((k, v) ∷ m) = (lookup k m ≡ none) × HasDistinctKeys m

  -- The loop `for k, v := range m { cp[k] = v }`.
  unfoldable pub copy_into : Dict V → Dict V → Dict V
  copy_into [] cp = cp
  copy_into ((k, v) ∷ m) cp = copy_into m (insert k v cp)

  pub lookup-copy_into :
      (k : Text) (m cp : Dict V)
      → HasDistinctKeys m
      → lookup k (copy_into m cp) ≡ elim (lookup k m) [ none ↦ lookup k cp | some v ↦ some v ]
  unfolding copy_into lookup
  lookup-copy_into k [] cp h = refl
  lookup-copy_into k ((j, v) ∷ m) cp (fresh, h) = ground (
    arith,
    lookup-copy_into k m (insert j v cp) h,
    lookup-insert j k v cp,
    text_eq_iff j k,
    fresh,
  )
