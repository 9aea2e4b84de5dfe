-- ===== src/Policy/Reconcile/Same.antt =====
-- The reconciliation of a set of policies with itself.
use mathlib.Core.Path.{subst}
use policy_conditions.Base.{
  true, false, ◌≡◌, refl, ap, ap₂, ◌∙◌, Option, none, some, List, [], ◌∷◌, ◌++◌, map, arith,
  Bool-cases, inl, inr,
}
use policy_conditions.Base.Lists.{any}
use policy_conditions.Base.Text.{Text, text_eq, text_eq_iff, text_eq_refl}
use policy_conditions.Base.Dict
use policy_conditions.Base.Dict.{get-nil, get-put, get-remove, empty_of_get}
use policy_conditions.Types.Platform.{Platform}
use policy_conditions.Policy.Info.{PolicyInfo, calculate_etag}
use policy_conditions.Policy.Equality.{equal, policies_equal, compare}
use policy_conditions.Policy.Reconcile.{
  Remaining, add_existing, compare_round, compare_all, then_rest, after, deletes, delete_by_id,
  delete_by_etag, with_deletes, no_policies, index_existing, reconcile, optional_get, by_id_round,
}
use policy_conditions.Policy.Reconcile.Deletes.{
  has_id, last_with_id, or_get, index_existing-ids, add_existing-ids, LeavesRound,
  compare_all-Leaves,
}

-- Every policy has an id, and no two have the same.
abbrev pub DistinctIds : List PolicyInfo → Type 0
DistinctIds [] = Unit
DistinctIds (p ∷ ps) =
    (i : Text) × (p.meta.policy_id ≡ some i) × (any (has_id i) ps ≡ false) × DistinctIds ps

-- Each policy of the list remains under its id.
abbrev pub Covered : Dict.Dict PolicyInfo → List PolicyInfo → Type 0
Covered m [] = Unit
Covered m (p ∷ ps) = (optional_get p.meta.policy_id m ≡ some p) × Covered m ps

pub last_with_id-none :
    (i : Text) (ps : List PolicyInfo) → any (has_id i) ps ≡ false → last_with_id i ps ≡ none
last_with_id-none i [] h = refl
last_with_id-none i (p ∷ ps) h = ground (arith, last_with_id-none i ps)

optional_get-remove :
    (i : Text) (o : Option Text) (m : Dict.Dict PolicyInfo) (p : PolicyInfo)
    → optional_get o m ≡ some p
    → (elim o [ none ↦ false | some j ↦ text_eq j i ]) ≡ false
    → optional_get o (Dict.remove i m) ≡ some p
optional_get-remove i none m p h d = cc
optional_get-remove i (some j) m p h d =
    ground (arith, get-remove i j m, text_eq_iff i j, text_eq_iff j i)

pub Covered-remove :
    (i : Text) (m : Dict.Dict PolicyInfo) (ps : List PolicyInfo)
    → any (has_id i) ps ≡ false
    → Covered m ps
    → Covered (Dict.remove i m) ps
Covered-remove i m [] d c = tt
Covered-remove i m (p ∷ ps) d c = (
  optional_get-remove i p.meta.policy_id m p c.0 (ground arith),
  Covered-remove i m ps (ground arith) c.1,
)

deletes-nil : (t : Remaining) → t.by_id ≡ [] → t.by_etag ≡ [] → deletes t ≡ []
unfolding deletes Dict.values
deletes-nil t h k =
    ap₂ (λ a b. map delete_by_id (Dict.values a) ++ map delete_by_etag (Dict.values b)) h k

module _ (P : Platform) (generate : Text → Text) where
  -- Every policy is equal to itself.
  pub compare_self : (p : PolicyInfo) → compare P generate p p ≡ some (equal ∷ [])
  unfolding compare policies_equal
  compare_self p = ground (arith, text_eq_refl (calculate_etag generate p))

  compare_round_self :
      (r : Remaining) (p : PolicyInfo) (i : Text)
      → p.meta.policy_id ≡ some i
      → optional_get p.meta.policy_id r.by_id ≡ some p
      → compare_round P generate true r p ≡ some ([], record r { by_id = Dict.remove i r.by_id })
  unfolding compare_round by_id_round
  compare_round_self r p i e h = ground (arith, compare_self p)

  compare_all_self :
      (r : Remaining) (ps : List PolicyInfo)
      → DistinctIds ps
      → Covered r.by_id ps
      → (t : Remaining) × (compare_all P generate true r ps ≡ some ([], t))
        × (t.by_etag ≡ r.by_etag)
  unfolding compare_all
  compare_all_self r [] d c = (r, refl, refl)
  compare_all_self r (p ∷ ps) (i, e, fresh, d) c =
      let r' = record r { by_id = Dict.remove i r.by_id } in
      let (t, all, same) = compare_all_self r' ps d (Covered-remove i r.by_id ps fresh c.1) in
      (
        t,
        ap (λ o. after o (λ u. compare_all P generate true u ps)) (compare_round_self r p i e c.0)
            ∙ ap (then_rest []) all,
        same,
      )

  add_existing-by_etag :
      (r : Remaining) (p : PolicyInfo) (i : Text)
      → p.meta.policy_id ≡ some i
      → (add_existing P generate r p).by_etag ≡ r.by_etag
  unfolding add_existing
  add_existing-by_etag r p i e = ground arith

  pub index_existing-Covered :
      (r : Remaining) (ps : List PolicyInfo)
      → DistinctIds ps
      → Covered (index_existing P generate r ps).by_id ps
        × ((index_existing P generate r ps).by_etag ≡ r.by_etag)
  unfolding index_existing
  index_existing-Covered r [] d = (tt, refl)
  index_existing-Covered r (p ∷ ps) (i, e, fresh, d) =
      let (rest, kept) = index_existing-Covered (add_existing P generate r p) ps d in
      ((here, rest), kept ∙ add_existing-by_etag r p i e)
    where
      at_id : Dict.get i (index_existing P generate (add_existing P generate r p) ps).by_id ≡ some p
      at_id =
          index_existing-ids P generate (add_existing P generate r p) ps i
          ∙ ap₂ or_get (last_with_id-none i ps fresh) (add_existing-ids P generate r p i)
          ∙ ground (arith, text_eq_refl i)

      here :
          optional_get p.meta.policy_id
            (index_existing P generate (add_existing P generate r p) ps).by_id
          ≡ some p
      here =
          ap
            (λ o. optional_get o (index_existing P generate (add_existing P generate r p) ps).by_id)
            e
          ∙ at_id

  -- A set of policies that all have ids, no two the same, is found unchanged when it is reconciled
  -- with itself: with `diffsOnly` the report is empty.
  pub reconcile_self :
      (ps : List PolicyInfo) → DistinctIds ps → reconcile P generate ps ps true ≡ some []
  unfolding reconcile
  reconcile_self ps d =
      let r = index_existing P generate no_policies ps in
      let (covered, empty_etags) = index_existing-Covered no_policies ps d in
      let (t, all, same) = compare_all_self r ps d covered in
      let gone = empty_of_get t.by_id (λ k. removed k t all) in
      ap with_deletes all ∙ ap some (deletes-nil t gone (same ∙ empty_etags))
    where
      removed :
          (k : Text) (t : Remaining)
          → compare_all P generate true (index_existing P generate no_policies ps) ps ≡ some ([], t)
          → Dict.get k t.by_id ≡ none
      removed k t all =
          let left =
            subst (LeavesRound ps (index_existing P generate no_policies ps)) all
              (compare_all-Leaves P generate true (index_existing P generate no_policies ps) ps) in
          let initial =
            index_existing-ids P generate no_policies ps k
            ∙ ap (or_get (last_with_id k ps)) (get-nil k) in
          left.ids k ∙ elim (Bool-cases (any (has_id k) ps)) [
            | inl h ↦ rw h refl
            | inr h ↦ rw h (initial ∙ ap (λ o. or_get o none) (last_with_id-none k ps h))
          ]
