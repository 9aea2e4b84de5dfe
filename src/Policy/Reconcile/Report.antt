-- ===== src/Policy/Reconcile/Report.antt =====
-- What a reconciliation reports: each compared policy once, and without the matches on request.
use policy_conditions.Base.{
  true, false, not, ◌≡◌, refl, ap, ap₂, ◌∙◌, sym, Option, none, some, List, [], ◌∷◌, ◌++◌, map,
  arith, append-nil, Option-cases, inl, inr,
}
use policy_conditions.Base.Lists.{keep, keep-append}
use mathlib.Core.List.{Perm}
use mathlib.Core.List.Perm
use mathlib.Core.Path.{fun_ext, subst}
use mathlib.Core.Option.{some-injective}
use policy_conditions.Base.Dict
use policy_conditions.Base.Text.{Text}
use policy_conditions.Types.Platform.{Platform}
use policy_conditions.Policy.Info.{PolicyInfo}
use policy_conditions.Policy.Equality.{compare}
use policy_conditions.Policy.Reconcile.Deletes.{is_delete}
use policy_conditions.Policy.Reconcile.{
  PolicyDif, Remaining, is_matched, compare_round, compare_all, then_rest, after, delete_by_id,
  delete_by_etag, deletes, with_deletes, no_policies, index_existing, reconcile, Round,
  optional_get, by_etag_round,
}

-- the entries that are no match
abbrev pub changes : List PolicyDif → List PolicyDif
changes = keep (λ d. not (is_matched d))

-- the compared policies that the entries name, in order
abbrev pub reported : List PolicyDif → List PolicyInfo
reported [] = []
reported (d ∷ ds) = elim d.compared [ none ↦ reported ds | some p ↦ p ∷ reported ds ]

abbrev pub on_entries {ℓ} : {A : Type ℓ} → (List PolicyDif → A) → Option (List PolicyDif) → Option A
on_entries f none = none
on_entries f (some ds) = some (f ds)

-- Two reports agree, but for the order of their deletions.
abbrev pub HasSameEntries : Option (List PolicyDif) → Option (List PolicyDif) → Type 0
HasSameEntries none none = Unit
HasSameEntries none (some es) = ⊥
HasSameEntries (some ds) none = ⊥
HasSameEntries (some ds) (some es) =
    (keep (λ d. not (is_delete d)) ds ≡ keep (λ d. not (is_delete d)) es)
    × Perm (keep is_delete ds) (keep is_delete es)

HasSameEntries-refl : (o : Option (List PolicyDif)) → HasSameEntries o o
HasSameEntries-refl none = tt
HasSameEntries-refl (some ds) = (refl, Perm.refl (keep is_delete ds))

abbrev changes_of : Option Round → Option Round
changes_of none = none
changes_of (some (ds, r)) = some (changes ds, r)

then_rest-changes :
    (ds : List PolicyDif) (o : Option Round)
    → changes_of (then_rest ds o) ≡ then_rest (changes ds) (changes_of o)
then_rest-changes ds none = refl
then_rest-changes ds (some (es, r)) = ap (λ l. some (l, r)) (keep-append _ ds es)

after-changes :
    (o : Option Round) (k : Remaining → Option Round)
    → changes_of (after o k) ≡ after (changes_of o) (λ r. changes_of (k r))
after-changes none k = refl
after-changes (some (ds, r)) k = then_rest-changes ds (k r)

changes-map :
    (f : PolicyInfo → PolicyDif) (ps : List PolicyInfo)
    → ((p : PolicyInfo) → is_matched (f p) ≡ false)
    → changes (map f ps) ≡ map f ps
changes-map f [] h = refl
changes-map f (p ∷ ps) h = ground (arith, h p, changes-map f ps h)

changes-deletes : (r : Remaining) → changes (deletes r) ≡ deletes r
unfolding deletes
changes-deletes r =
    keep-append _ (map delete_by_id (Dict.values r.by_id)) _
    ∙ ap₂ (λ a b. a ++ b) (changes-map delete_by_id _ (λ p. refl))
        (changes-map delete_by_etag _ (λ p. refl))

reported-append : (ds es : List PolicyDif) → reported (ds ++ es) ≡ reported ds ++ reported es
reported-append [] es = refl
reported-append (d ∷ ds) es = ground (arith, reported-append ds es)

reported-map :
    (f : PolicyInfo → PolicyDif) (ps : List PolicyInfo)
    → ((p : PolicyInfo) → (f p).compared ≡ none)
    → reported (map f ps) ≡ []
reported-map f [] h = refl
reported-map f (p ∷ ps) h = ground (arith, h p, reported-map f ps h)

reported-deletes : (r : Remaining) → reported (deletes r) ≡ []
unfolding deletes
reported-deletes r =
    reported-append (map delete_by_id (Dict.values r.by_id)) _
    ∙ ap₂ (λ a b. a ++ b) (reported-map delete_by_id (Dict.values r.by_id) (λ p. refl))
        (reported-map delete_by_etag (Dict.values r.by_etag) (λ p. refl))

-- a round reports just these policies, or panics
abbrev Reports : Option Round → List PolicyInfo → Type 0
Reports none ps = Unit
Reports (some (ds, r)) ps = reported ds ≡ ps

Reports-then_rest :
    (ds : List PolicyDif) (o : Option Round) (ps qs : List PolicyInfo)
    → reported ds ≡ ps
    → Reports o qs
    → Reports (then_rest ds o) (ps ++ qs)
Reports-then_rest ds none ps qs h k = tt
Reports-then_rest ds (some (es, r)) ps qs h k = reported-append ds es ∙ ap₂ (λ a b. a ++ b) h k

Reports-after :
    (o : Option Round) (k : Remaining → Option Round) (ps qs : List PolicyInfo)
    → Reports o ps
    → ((r : Remaining) → Reports (k r) qs)
    → Reports (after o k) (ps ++ qs)
Reports-after none k ps qs h later = tt
Reports-after (some (ds, r)) k ps qs h later = Reports-then_rest ds (k r) ps qs h (later r)

module _ (P : Platform) (generate : Text → Text) where
  compare_round-changes :
      (r : Remaining) (p : PolicyInfo)
      → compare_round P generate true r p ≡ changes_of (compare_round P generate false r p)
  unfolding compare_round
  compare_round-changes r p = ground arith

  compare_all-changes :
      (r : Remaining) (ps : List PolicyInfo)
      → compare_all P generate true r ps ≡ changes_of (compare_all P generate false r ps)
  unfolding compare_all
  compare_all-changes r [] = refl
  compare_all-changes r (p ∷ ps) =
      ap₂ after (compare_round-changes r p) (fun_ext (λ t. compare_all-changes t ps))
      ∙ sym (after-changes (compare_round P generate false r p) _)

  without_matches :
      (existing compared : List PolicyInfo)
      → reconcile P generate existing compared true
        ≡ on_entries changes (reconcile P generate existing compared false)
  unfolding reconcile
  without_matches existing compared =
      ap with_deletes
        (compare_all-changes (index_existing P generate no_policies existing) compared)
      ∙ finish
          (compare_all P generate false (index_existing P generate no_policies existing) compared)
    where
      finish :
          (o : Option Round) → with_deletes (changes_of o) ≡ on_entries changes (with_deletes o)
      finish none = refl
      finish (some (ds, r)) =
          ap some (
            ap (λ l. changes ds ++ l) (sym (changes-deletes r))
            ∙ sym (keep-append _ ds (deletes r)))

  -- With `diffsOnly` the report is the full report without its matches: the entries of the compared
  -- policies are the same in the same order, the deletions are the same in an order of the maps' choice,
  -- and a panic is one in both cases.
  pub reconcile-diffs_only :
      (existing compared : List PolicyInfo)
      → HasSameEntries
          (reconcile P generate existing compared true)
          (on_entries changes (reconcile P generate existing compared false))
  reconcile-diffs_only existing compared =
      subst (HasSameEntries (reconcile P generate existing compared true))
        (without_matches existing compared)
        (HasSameEntries-refl (reconcile P generate existing compared true))

  by_etag_round-Reports :
      (r : Remaining) (p : PolicyInfo)
      → Reports (some (by_etag_round P generate false p r)) (p ∷ [])
  unfolding by_etag_round
  by_etag_round-Reports r p = ground arith

  compare_round-Reports :
      (r : Remaining) (p : PolicyInfo) → Reports (compare_round P generate false r p) (p ∷ [])
  unfolding compare_round
  compare_round-Reports r p = elim (Option-cases (optional_get p.meta.policy_id r.by_id)) [
    | inl (source, e) ↦ elim (Option-cases (compare P generate p source)) [
      | inl (ds, f) ↦ rw (e, compare_round) (rw f (ground arith))
      | inr f ↦ rw (e, compare_round) (rw f tt)
    ]
    | inr e ↦ rw (e, compare_round) (by_etag_round-Reports r p)
  ]

  compare_all-Reports :
      (r : Remaining) (ps : List PolicyInfo) → Reports (compare_all P generate false r ps) ps
  unfolding compare_all
  compare_all-Reports r [] = refl
  compare_all-Reports r (p ∷ ps) =
      Reports-after (compare_round P generate false r p) _ (p ∷ []) ps (compare_round-Reports r p)
        (λ t. compare_all-Reports t ps)

  -- The full report names the compared policies one by one, in their order: none is left out, and
  -- none is named twice.
  pub reconcile-reported :
      (existing compared : List PolicyInfo) {ds : List PolicyDif}
      → reconcile P generate existing compared false ≡ some ds
      → reported ds ≡ compared
  unfolding reconcile
  reconcile-reported existing compared h =
      finish
        (compare_all P generate false (index_existing P generate no_policies existing) compared)
        (compare_all-Reports (index_existing P generate no_policies existing) compared) h
    where
      finish :
          (o : Option Round) {ds : List PolicyDif}
          → Reports o compared
          → with_deletes o ≡ some ds
          → reported ds ≡ compared
      finish none h e = cc
      finish (some (es, r)) h e =
          subst (λ l. reported l ≡ compared) (some-injective _ _ e)
            (reported-append es (deletes r)
              ∙ ap (λ l. reported es ++ l) (reported-deletes r)
              ∙ append-nil (reported es)
              ∙ h)
