-- ===== src/Avp/Unchanged.antt =====
-- Setting the policies that were just read.
use mathlib.Core.Path.{subst}
use policy_conditions.Base.{
  Bool, true, false, ◌≡◌, refl, sym, ap, ◌∙◌, Option, none, some, List, [], ◌∷◌, ◌++◌, ◌⊎◌,
  append-nil, arith, if◌then◌else◌, Bool-cases, inl, inr,
}
use policy_conditions.Base.Lists.{any}
use policy_conditions.Base.Text.{Text, codes, text_eq}
use policy_conditions.Base.Dict
use policy_conditions.Base.Dict.{Dict, get-nil, get-remove, empty_of_get}
use policy_conditions.Base.Except.{Except, done}
use policy_conditions.Types.Platform.{Platform}
use policy_conditions.Conditions.Walk.{AttributeMap}
use policy_conditions.Policy.Info.{PolicyInfo, MetaInfo}
use policy_conditions.Policy.Reconcile.{
  ignore, PolicyDif, Remaining, index_existing, add_existing, no_policies, optional_get,
}
use policy_conditions.Policy.Reconcile.Deletes.{has_id, last_with_id, or_get, index_existing-ids}
use policy_conditions.Policy.Reconcile.Same.{
  DistinctIds, Covered, Covered-remove, compare_self, index_existing-Covered, last_with_id-none,
}
use policy_conditions.Cedar.Policies.{Annotations, CedarPolicy}
use policy_conditions.Avp.{Client}
use policy_conditions.Avp.Reading.{get_policy_info}
use policy_conditions.Avp.Reading.Provider.{AreAvp, get_policy_info-AreAvp}
use policy_conditions.Avp.Reconcile.{
  dif, is_template, known_round, avp_index, deletes, avp_round_of, avp_round, avp_rounds,
  reconcile_avp,
}
use policy_conditions.Avp.Setting.{next, ended, apply_dif, apply_difs, set_from, set_policy_info}

abbrev AreIgnored : List PolicyDif → Type 0
AreIgnored [] = Unit
AreIgnored (d ∷ ds) = (d.change ≡ ignore) × AreIgnored ds

AreIgnored-append : (ds es : List PolicyDif) → AreIgnored ds → AreIgnored es → AreIgnored (ds ++ es)
AreIgnored-append [] es h k = k
AreIgnored-append (d ∷ ds) es (h, hs) k = (h, AreIgnored-append ds es hs k)

module _ (P : Platform) (generate : Text → Text) where
  add-at_id :
      (r : Remaining) (p : PolicyInfo) (i : Text)
      → p.meta.policy_id ≡ some i
      → add_existing P generate r p ≡ record r { by_id = Dict.put i p r.by_id }
  unfolding add_existing
  add-at_id r p i e = ground arith

  index-cons :
      (m : Dict PolicyInfo) (p : PolicyInfo) (i : Text) (ps : List PolicyInfo)
      → p.meta.policy_id ≡ some i
      → avp_index m (p ∷ ps) ≡ avp_index (Dict.put i p m) ps
  unfolding avp_index
  index-cons m p i ps e = ground arith

  index-same :
      (r : Remaining) (ps : List PolicyInfo)
      → DistinctIds ps
      → avp_index r.by_id ps ≡ some (index_existing P generate r ps).by_id
  unfolding avp_index index_existing add_existing
  index-same r [] d = refl
  index-same r (p ∷ ps) (i, e, fresh, d) =
      index-cons r.by_id p i ps e
      ∙ index-same (record r { by_id = Dict.put i p r.by_id }) ps d
      ∙ ap (λ (t : Remaining). some (index_existing P generate t ps).by_id)
          (sym (add-at_id r p i e))

  round-same :
      (m : Dict PolicyInfo) (p : PolicyInfo) (i : Text)
      → text_eq p.meta.provider_type (codes "avp") ≡ true
      → p.meta.policy_id ≡ some i
      → Dict.get i m ≡ some p
      → (ds : List PolicyDif) × (avp_round P generate true m p ≡ some (ds, Dict.remove i m))
        × AreIgnored ds
  unfolding avp_round avp_round_of known_round
  round-same m p i a e g = elim (Bool-cases (is_template p)) [
    | inl t ↦ (dif ignore [] (p ∷ []) (some p) ∷ [], ground (arith, t), (refl, tt))
    | inr t ↦ ([], ground (arith, t, compare_self P generate p), tt)
  ]

  rounds-same :
      (m : Dict PolicyInfo) (ps : List PolicyInfo)
      → DistinctIds ps
      → AreAvp ps
      → Covered m ps
      → (ds : List PolicyDif) × (m' : Dict PolicyInfo) × (avp_rounds P generate true m ps
          ≡ some (ds, m'))
        × AreIgnored ds
        × ((k : Text) → Dict.get k m' ≡ (if any (has_id k) ps then none else Dict.get k m))
  unfolding avp_rounds
  rounds-same m [] d a c = ([], m, refl, tt, λ k. refl)
  rounds-same m (p ∷ ps) (i, e, fresh, d) (a, as') (c, cs) =
      let g = subst (λ o. optional_get o m ≡ some p) e c in
      let (ds, h, ignored) = round-same m p i a e g in
      let (es, m', k, others, left) =
        rounds-same (Dict.remove i m) ps d as' (Covered-remove i m ps fresh cs) in
      (
        ds ++ es,
        m',
        rw (h, avp_rounds, k) refl,
        AreIgnored-append ds es ignored others,
        λ j. left j ∙ ground (arith, get-remove i j m),
      )

  reconcile_avp-of :
      (existing compared : List PolicyInfo) (diffs_only : Bool) {m m' : Dict PolicyInfo}
      {ds : List PolicyDif}
      → avp_index [] existing ≡ some m
      → avp_rounds P generate diffs_only m compared ≡ some (ds, m')
      → reconcile_avp P generate existing compared diffs_only ≡ some (ds ++ deletes m')
  unfolding reconcile_avp
  reconcile_avp-of existing compared diffs_only h k = rw (h, reconcile_avp, k) refl

  reconcile_avp_same :
      (ps : List PolicyInfo)
      → DistinctIds ps
      → AreAvp ps
      → (ds : List PolicyDif) × (reconcile_avp P generate ps ps true ≡ some ds) × AreIgnored ds
  unfolding reconcile_avp
  reconcile_avp_same ps d a =
      let m = (index_existing P generate no_policies ps).by_id in
      let (ds, m', h, ignored, left) =
        rounds-same m ps d a (index_existing-Covered P generate no_policies ps d).0 in
      let gone = empty_of_get m' (λ k. left k ∙ indexed k (Bool-cases (any (has_id k) ps))) in
      (
        ds,
        reconcile_avp-of ps ps true (index-same no_policies ps d) h
            ∙ (ap (λ t. some (ds ++ deletes t)) gone
                ∙ unfold Dict.values in ap some (append-nil ds)),
        ignored,
      )
    where
      indexed :
          (k : Text)
          → ((any (has_id k) ps ≡ true) ⊎ (any (has_id k) ps ≡ false))
          → (if any (has_id k) ps
              then none
              else Dict.get k (index_existing P generate no_policies ps).by_id)
            ≡ none
      indexed k (inl h) = rw h refl
      indexed k (inr h) = rw h (
          index_existing-ids P generate no_policies ps k
          ∙ ap (or_get (last_with_id k ps)) (get-nil k)
          ∙ ap (λ o. or_get o none) (last_with_id-none k ps h))

module _ (P : Platform) (generate : Text → Text) (unquote decimal : Text → Option Text)
    (n : AttributeMap) (annotations_of : MetaInfo → Annotations) (S E : Type 0)
    (client : Client S E) (location : Text) where
  ignored-next :
      (s : S) (ds : List PolicyDif)
      → AreIgnored ds
      → apply_difs P generate unquote decimal n annotations_of S E client location s ds ≡ next s
  unfolding apply_difs apply_dif
  ignored-next s [] h = refl
  ignored-next s (d ∷ ds) (h, hs) = rw h (ignored-next s ds hs)

  set_from_same :
      (s : S) (ps : List PolicyInfo)
      → DistinctIds ps
      → AreAvp ps
      → set_from P generate unquote decimal n annotations_of S E client location s ps ps
        ≡ some (s, 200)
  unfolding set_from
  set_from_same s ps d a =
      let (ds, h, ignored) = reconcile_avp_same P generate ps d a in
      rw (h, set_from) (ap ended (ignored-next s ds ignored))

-- Policies that were just read, all with different identifiers, are set without a change of the remote
-- store, whatever its other operations would do, and the status is 200.
pub set_policy_info-get_policy_info :
    (P : Platform) (generate : Text → Text) (unquote decimal : Text → Option Text)
    (n : AttributeMap) (annotations_of : MetaInfo → Annotations) (S E : Type 0)
    (parse : Text → Text → Except E (List CedarPolicy)) (client : Client S E) (location : Text)
    (s : S) (ps : List PolicyInfo)
    → get_policy_info P generate unquote S E parse (done client) location s ≡ some (done ps)
    → DistinctIds ps
    → set_policy_info P generate unquote decimal n annotations_of S E parse
        (done client)
        location
        s
        ps
      ≡ some (s, 200)
unfolding set_policy_info
set_policy_info-get_policy_info P generate unquote decimal n annotations_of S E parse client
      location s ps h d =
    rw (h, set_policy_info)
      (set_from_same P generate unquote decimal n annotations_of S E client location s ps d
        (get_policy_info-AreAvp P generate unquote S E parse client location s ps h))
