-- ===== src/Policy/Reconcile.antt =====
-- `ReconcilePolicies`. A Go map is visited in any order; here, in the order of first insertion.
-- A panic in the comparison of two scopes ends the call: the result is then none.
pub mod Report
pub mod Deletes
pub mod Deleted
pub mod Same
use policy_conditions.Base.{
  Bool, true, false, ◌&&◌, Option, none, some, List, [], ◌∷◌, ◌++◌, map, if◌then◌else◌,
}
use policy_conditions.Base.Text.{Text}
use policy_conditions.Base.Dict
use policy_conditions.Base.Dict.{Dict}
use policy_conditions.Types.Platform.{Platform}
use policy_conditions.Policy.Info.{PolicyInfo, calculate_etag, with_etag}
use policy_conditions.Policy.Equality.{Difference, equal, compare}

-- The constants `ChangeType*`
pub data ChangeType : Type 0 where
  new matched update delete ignore : ChangeType

-- `PolicyDif`
pub record PolicyDif : Type 0 where
  pub change : ChangeType
  pub policy_id : Text
  pub hash : Text
  pub dif_types : List Difference
  pub exist : List PolicyInfo
  pub compared : Option PolicyInfo

-- The policies that are not yet handled, by id and by etag: `policyIdMap` and `policyEtagMap`.
pub record Remaining : Type 0 where
  pub by_id : Dict PolicyInfo
  pub by_etag : Dict PolicyInfo

abbrev pub id_text : Option Text → Text
id_text none = []
id_text (some i) = i

abbrev pub is_matched : PolicyDif → Bool
is_matched d = elim d.change [ matched ↦ true | _ ↦ false ]

-- `slices.Contains(differenceTypes, CompareEqual)`
abbrev pub has_equal : List Difference → Bool
has_equal [] = false
has_equal (equal ∷ ds) = true
has_equal (d ∷ ds) = has_equal ds

abbrev pub optional_get : Option Text → Dict PolicyInfo → Option PolicyInfo
optional_get none m = none
optional_get (some k) m = Dict.get k m

-- The entries of one policy to compare, and what then remains.
abbrev pub Round : Type 0
Round = List PolicyDif × Remaining

-- The branch for a policy that was found by its id
pub by_id_round : Bool → PolicyInfo → PolicyInfo → Remaining → List Difference → Round
by_id_round diffs_only p source r ds =
    let dif : PolicyDif = record {
      change = if has_equal ds then matched else update;
      policy_id = id_text source.meta.policy_id;
      hash = [];
      dif_types = ds;
      exist = source ∷ [];
      compared = some p;
    } in
    (
      if has_equal ds && diffs_only then [] else dif ∷ [],
      record r { by_id = Dict.remove (id_text p.meta.policy_id) r.by_id },
    )

abbrev pub then_rest : List PolicyDif → Option Round → Option Round
then_rest ds none = none
then_rest ds (some (es, r)) = some (ds ++ es, r)

abbrev pub after : Option Round → (Remaining → Option Round) → Option Round
after none k = none
after (some (ds, r)) k = then_rest ds (k r)

unfoldable pub delete_by_id : PolicyInfo → PolicyDif
delete_by_id p = record {
  change = delete;
  policy_id = id_text p.meta.policy_id;
  hash = [];
  dif_types = [];
  exist = p ∷ [];
  compared = none;
}

unfoldable pub delete_by_etag : PolicyInfo → PolicyDif
delete_by_etag p = record {
  change = delete;
  policy_id = [];
  hash = p.meta.etag;
  dif_types = [];
  exist = p ∷ [];
  compared = none;
}

-- the entries for what remains
unfoldable pub deletes : Remaining → List PolicyDif
unfolding delete_by_id delete_by_etag
deletes r = map delete_by_id (Dict.values r.by_id) ++ map delete_by_etag (Dict.values r.by_etag)

abbrev pub no_policies : Remaining
no_policies = record { by_id = []; by_etag = [] }

abbrev pub with_deletes : Option Round → Option (List PolicyDif)
with_deletes none = none
with_deletes (some (ds, r)) = some (ds ++ deletes r)

module _ (P : Platform) (generate : Text → Text) where
  -- one round of the first loop
  unfoldable pub add_existing : Remaining → PolicyInfo → Remaining
  add_existing r p = elim p.meta.policy_id [
    | some i ↦ record r { by_id = Dict.put i p r.by_id }
    | none ↦ record r {
      by_etag = Dict.put (calculate_etag generate p) (with_etag generate p) r.by_etag;
    }
  ]

  unfoldable pub index_existing : Remaining → List PolicyInfo → Remaining
  unfolding add_existing
  index_existing r [] = r
  index_existing r (p ∷ ps) = index_existing (add_existing r p) ps

  -- The branches for a policy that was not found by its id
  pub by_etag_round : Bool → PolicyInfo → Remaining → Round
  by_etag_round diffs_only p r =
      let key = calculate_etag generate p in
      elim (Dict.get key r.by_etag) [
        | some source ↦
            let dif : PolicyDif = record {
              change = matched;
              policy_id = [];
              hash = source.meta.etag;
              dif_types = equal ∷ [];
              exist = source ∷ [];
              compared = some p;
            } in
            (if diffs_only then [] else dif ∷ [], record r { by_etag = Dict.remove key r.by_etag })
        | none ↦
            let dif : PolicyDif = record {
              change = new;
              policy_id = id_text p.meta.policy_id;
              hash = key;
              dif_types = [];
              exist = [];
              compared = some p;
            } in
            (dif ∷ [], r)
      ]

  -- one round of the second loop
  unfoldable pub compare_round : Bool → Remaining → PolicyInfo → Option Round
  unfolding by_id_round by_etag_round
  compare_round diffs_only r p = elim (optional_get p.meta.policy_id r.by_id) [
    | some source ↦ elim (compare P generate p source) [
      | none ↦ none
      | some ds ↦ some (by_id_round diffs_only p source r ds)
    ]
    | none ↦ some (by_etag_round diffs_only p r)
  ]

  -- the second loop
  unfoldable pub compare_all : Bool → Remaining → List PolicyInfo → Option Round
  unfolding compare_round
  compare_all diffs_only r [] = some ([], r)
  compare_all diffs_only r (p ∷ ps) =
      after (compare_round diffs_only r p) (λ r'. compare_all diffs_only r' ps)

  -- `ReconcilePolicies`
  unfoldable pub reconcile : List PolicyInfo → List PolicyInfo → Bool → Option (List PolicyDif)
  unfolding compare_all index_existing deletes
  reconcile existing compared diffs_only =
      with_deletes (compare_all diffs_only (index_existing no_policies existing) compared)
