-- ===== src/Base/Dict.antt =====
-- Go maps with string keys, as association lists in the order of first insertion.
use mathlib.Core.Path.{◌≡◌, ◌∙◌, refl}
use mathlib.Core.Option.{Option, none, some}
use mathlib.Core.List.{List, [], ◌∷◌, map}
use native.Mathlib.Omega.{arith}
use mathlib.Core.Logic.{inl, inr}
use policy_conditions.Base.Tests.{Bool-cases, if◌then◌else◌}
use policy_conditions.Base.Text.{Text, text_eq, text_eq_iff, text_eq_refl}

abbrev pub Dict {ℓ} : Type ℓ → Type ℓ
Dict V = List (Text × V)

module _ {ℓ} {V : Type ℓ} where
  -- `v, ok := m[k]`
  unfoldable pub get : Text → Dict V → Option V
  get k [] = none
  get k ((j, v) ∷ m) = if text_eq j k then some v else get k m

  -- `m[k] = v`
  unfoldable pub put : Text → V → Dict V → Dict V
  put k v [] = (k, v) ∷ []
  put k v ((j, w) ∷ m) = if text_eq j k then (j, v) ∷ m else (j, w) ∷ put k v m

  -- `delete(m, k)`
  unfoldable pub remove : Text → Dict V → Dict V
  remove k [] = []
  remove k ((j, w) ∷ m) = let rest = remove k m in if text_eq j k then rest else (j, w) ∷ rest

  -- the values, in the order of the list
  unfoldable pub values : Dict V → List V
  values = map (λ (k, v). v)

  unfoldable pub keys : Dict V → List Text
  keys = map (λ (k, v). k)

  pub get-nil : (k : Text) → get k [] ≡ none
  unfolding get
  get-nil k = refl

  pub get-put :
      (k j : Text) (v : V) (m : Dict V)
      → get j (put k v m) ≡ (if text_eq k j then some v else get j m)
  unfolding get put
  get-put k j v [] = refl
  get-put k j v ((i, w) ∷ m) =
      ground (arith, text_eq_iff k j, text_eq_iff i k, text_eq_iff i j, get-put k j v m)

  pub get-remove :
      (k j : Text) (m : Dict V) → get j (remove k m) ≡ (if text_eq k j then none else get j m)
  unfolding get remove
  get-remove k j [] = ground arith
  get-remove k j ((i, w) ∷ m) =
      ground (arith, text_eq_iff k j, text_eq_iff i k, text_eq_iff i j, get-remove k j m)

  -- No key stands in the list twice.
  abbrev pub IsUnique : Dict V → Type ℓ
  IsUnique [] = Unit
  IsUnique ((k, v) ∷ m) = (get k m ≡ none) × IsUnique m

  pub put-IsUnique : (k : Text) (v : V) (m : Dict V) → IsUnique m → IsUnique (put k v m)
  unfolding get put
  put-IsUnique k v [] h = (refl, tt)
  put-IsUnique k v ((j, w) ∷ m) (h, g) = elim (Bool-cases (text_eq j k)) [
    | inl e ↦ rw e (h, g)
    | inr e ↦ rw e (
      get-put k j v m ∙ ground (arith, text_eq_iff k j, text_eq_iff j k, e, h),
      put-IsUnique k v m g,
    )
  ]

  pub remove-IsUnique : (k : Text) (m : Dict V) → IsUnique m → IsUnique (remove k m)
  unfolding get remove
  remove-IsUnique k [] h = tt
  remove-IsUnique k ((j, w) ∷ m) (h, g) = elim (Bool-cases (text_eq j k)) [
    | inl e ↦ rw e (remove-IsUnique k m g)
    | inr e ↦ rw e (get-remove k j m ∙ ground (arith, h), remove-IsUnique k m g)
  ]

  -- A map that has no key is empty.
  pub empty_of_get : (m : Dict V) → ((k : Text) → get k m ≡ none) → m ≡ []
  unfolding get
  empty_of_get [] h = refl
  empty_of_get ((k, v) ∷ m) h = ground (arith, h k, text_eq_refl k)
