-- ===== src/Policy/Reconcile/Deleted.antt =====
-- Which existing policies a reconciliation deletes, with or without an id.
use policy_conditions.Base.{
  Bool, true, false, not, ◌&&◌, ◌||◌, ◌≡◌, Option, none, some, List, [], ◌∷◌, if◌then◌else◌,
}
use policy_conditions.Base.Lists.{any}
use policy_conditions.Base.Text.{Text, text_eq}
use policy_conditions.Base.Dict
use policy_conditions.Types.Platform.{Platform}
use policy_conditions.Policy.Info.{PolicyInfo, calculate_etag, with_etag}
use policy_conditions.Policy.Reconcile.{Remaining, Round}
use policy_conditions.Policy.Reconcile.Deletes.{has_id, or_get, last_with_id}

abbrev is_found : Option Text → (Text → Option PolicyInfo) → Bool
is_found none look = false
is_found (some i) look = elim (look i) [ none ↦ false | some p ↦ true ]

module _ (generate : Text → Text) where
  -- A compared policy that is not found by its id has this etag. Each policy is found once.
  abbrev pub has_etag : (Text → Option PolicyInfo) → Text → List PolicyInfo → Bool
  has_etag look k [] = false
  has_etag look k (p ∷ ps) =
      (not (is_found p.meta.policy_id look) && text_eq (calculate_etag generate p) k)
      || has_etag (λ i. if has_id i p then none else look i) k ps

  -- the last policy of a list that has no id and this etag, with the etag set
  abbrev pub last_with_etag : Text → List PolicyInfo → Option PolicyInfo
  last_with_etag k [] = none
  last_with_etag k (p ∷ ps) = or_get (last_with_etag k ps) (elim p.meta.policy_id [
    | none ↦ if text_eq (calculate_etag generate p) k then some (with_etag generate p) else none
    | some i ↦ none
  ])

  -- the lookup by id
  abbrev ids_of : Remaining → Text → Option PolicyInfo
  ids_of r i = Dict.get i r.by_id

  abbrev Etags : List PolicyInfo → Remaining → Option Round → Type 0
  Etags ps r none = Unit
  Etags ps r (some (ds, t)) =
      (k : Text)
      → Dict.get k t.by_etag ≡ (if has_etag (ids_of r) k ps then none else Dict.get k r.by_etag)

  module _ (P : Platform) where
    -- no key of the maps stands twice
    abbrev AreUnique : Remaining → Type 0
    AreUnique r = Dict.IsUnique r.by_id × Dict.IsUnique r.by_etag

    -- What remains of the existing policies: under each id the last one with it, unless a compared policy
    -- has the id; and under each etag the last one that has no id and this etag, unless a compared policy
    -- that is not found by its id has the etag. Each key is there once.
    pub record IsLeft (existing compared : List PolicyInfo) (r : Remaining) : Type 0 where
      pub unique_ids : Dict.IsUnique r.by_id
      pub unique_etags : Dict.IsUnique r.by_etag
      pub ids :
          (k : Text)
          → Dict.get k r.by_id ≡ (if any (has_id k) compared then none else last_with_id k existing)
      pub etags :
          (k : Text)
          → Dict.get k r.by_etag ≡ (
              if has_etag (λ i. last_with_id i existing) k compared
              then none
              else last_with_etag k existing)
