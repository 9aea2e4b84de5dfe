-- ===== src/Policy/Reconcile/Deletes.antt =====
-- Which existing policies a reconciliation deletes.
use policy_conditions.Base.{
  Bool, true, false, not, ◌&&◌, ◌≡◌, ◌⊎◌, refl, ap, ◌∙◌, Option, none, some, List, [], ◌∷◌, ◌++◌,
  arith, if◌then◌else◌, Option-cases, inl, inr,
}
use policy_conditions.Base.Lists.{any, all, any-append, all-append}
use policy_conditions.Base.Text.{Text, text_eq, text_eq_iff}
use policy_conditions.Base.Dict
use policy_conditions.Base.Dict.{get-nil, get-put, get-remove}
use policy_conditions.Types.Platform.{Platform}
use policy_conditions.Policy.Info.{PolicyInfo, calculate_etag}
use policy_conditions.Policy.Equality.{Difference, compare}
use policy_conditions.Policy.Reconcile.{
  PolicyDif, delete, Remaining, add_existing, compare_round, compare_all, then_rest, after,
  index_existing, Round, optional_get, id_text, by_id_round, has_equal, by_etag_round,
}

-- the policy has this id
abbrev pub has_id : Text → PolicyInfo → Bool
has_id k p = elim p.meta.policy_id [ none ↦ false | some j ↦ text_eq j k ]

abbrev pub or_get : Option PolicyInfo → Option PolicyInfo → Option PolicyInfo
or_get (some p) o = some p
or_get none o = o

-- the last policy of a list with an id
abbrev pub last_with_id : Text → List PolicyInfo → Option PolicyInfo
last_with_id k [] = none
last_with_id k (p ∷ ps) = or_get (last_with_id k ps) (if has_id k p then some p else none)

abbrev pub is_delete : PolicyDif → Bool
is_delete d = elim d.change [ delete ↦ true | _ ↦ false ]

-- The entries are of policies of the list: of each at most one, in their order.
abbrev pub AreOf : List PolicyDif → List PolicyInfo → Type 0
AreOf [] ps = Unit
AreOf (d ∷ ds) [] = ⊥
AreOf (d ∷ ds) (p ∷ ps) = ((d.compared ≡ some p) × AreOf ds ps) ⊎ AreOf (d ∷ ds) ps

AreOf-behind : (es : List PolicyDif) (ps qs : List PolicyInfo) → AreOf es qs → AreOf es (ps ++ qs)
AreOf-behind [] ps qs h = tt
AreOf-behind (e ∷ es) [] qs h = h
AreOf-behind (e ∷ es) (p ∷ ps) qs h = inr (AreOf-behind (e ∷ es) ps qs h)

pub AreOf-append :
    (ds es : List PolicyDif) (ps qs : List PolicyInfo)
    → AreOf ds ps
    → AreOf es qs
    → AreOf (ds ++ es) (ps ++ qs)
AreOf-append [] es ps qs h k = AreOf-behind es ps qs k
AreOf-append (d ∷ ds) es [] qs h k = elim h [ ]
AreOf-append (d ∷ ds) es (p ∷ ps) qs (inl (e, h)) k = inl (e, AreOf-append ds es ps qs h k)
AreOf-append (d ∷ ds) es (p ∷ ps) qs (inr h) k = inr (AreOf-append (d ∷ ds) es ps qs h k)

pub AreOf-if :
    (b : Bool) (ds es : List PolicyDif) (ps : List PolicyInfo)
    → AreOf ds ps
    → AreOf es ps
    → AreOf (if b then ds else es) ps
AreOf-if true ds es ps h k = h
AreOf-if false ds es ps h k = k

-- What a round leaves: no policy with the ids of `ps`, and all else as it was before. It deletes none.
pub record Leaves (ps : List PolicyInfo) (r : Remaining) (ds : List PolicyDif) (t : Remaining)
    : Type 0 where
  pub are_of : AreOf ds ps
  pub unique_ids : Dict.IsUnique r.by_id → Dict.IsUnique t.by_id
  pub unique_etags : Dict.IsUnique r.by_etag → Dict.IsUnique t.by_etag
  pub ids :
      (k : Text) → Dict.get k t.by_id ≡ (if any (has_id k) ps then none else Dict.get k r.by_id)
  pub deletes_none : all (λ d. not (is_delete d)) ds ≡ true

abbrev pub LeavesRound : List PolicyInfo → Remaining → Option Round → Type 0
LeavesRound ps r none = Unit
LeavesRound ps r (some (ds, t)) = Leaves ps r ds t

abbrev is_id : Text → Option Text → Bool
is_id k none = false
is_id k (some j) = text_eq j k

ids_removed :
    (o : Option Text) (m : Dict.Dict PolicyInfo) (source : PolicyInfo) (k : Text)
    → optional_get o m ≡ some source
    → Dict.get k (Dict.remove (id_text o) m) ≡ (if is_id k o then none else Dict.get k m)
ids_removed none m source k h = cc
ids_removed (some j) m source k h = get-remove j k m

ids_kept :
    (o : Option Text) (m : Dict.Dict PolicyInfo) (k : Text)
    → optional_get o m ≡ none
    → Dict.get k m ≡ (if is_id k o then none else Dict.get k m)
ids_kept none m k h = refl
ids_kept (some j) m k h = ground (arith, text_eq_iff j k)

pub or_get_assoc : (a b c : Option PolicyInfo) → or_get a (or_get b c) ≡ or_get (or_get a b) c
or_get_assoc none b c = refl
or_get_assoc (some a) b c = refl

pub or_get-none : (a : Option PolicyInfo) → or_get a none ≡ a
or_get-none none = refl
or_get-none (some a) = refl

module _ (P : Platform) (generate : Text → Text) where
  by_etag_round-Leaves :
      (b : Bool) (p : PolicyInfo) (r : Remaining)
      → optional_get p.meta.policy_id r.by_id ≡ none
      → LeavesRound (p ∷ []) r (some (by_etag_round P generate b p r))
  unfolding by_etag_round
  by_etag_round-Leaves b p r e = elim (Option-cases (Dict.get key r.by_etag)) [
    | inl (source, f) ↦
        rw (f, by_etag_round)
          record {
            are_of = AreOf-if b [] _ (p ∷ []) tt (inl (refl, tt));
            unique_ids = λ u. u;
            unique_etags = λ u. Dict.remove-IsUnique key r.by_etag u;
            ids = λ k. ids_kept p.meta.policy_id r.by_id k e ∙ ground arith;
            deletes_none = ground arith;
          }
    | inr f ↦
        rw (f, by_etag_round)
          record {
            are_of = inl (refl, tt);
            unique_ids = λ u. u;
            unique_etags = λ u. u;
            ids = λ k. ids_kept p.meta.policy_id r.by_id k e ∙ ground arith;
            deletes_none = refl;
          }
  ]
    where
      key : Text
      key = calculate_etag generate p

  by_id_round-Leaves :
      (b : Bool) (p source : PolicyInfo) (r : Remaining) (ds : List Difference)
      → optional_get p.meta.policy_id r.by_id ≡ some source
      → LeavesRound (p ∷ []) r (some (by_id_round b p source r ds))
  unfolding by_id_round
  by_id_round-Leaves b p source r ds e = record {
    are_of = AreOf-if (has_equal ds && b) [] _ (p ∷ []) tt (inl (refl, tt));
    unique_ids = λ u. Dict.remove-IsUnique (id_text p.meta.policy_id) r.by_id u;
    unique_etags = λ u. u;
    ids = λ k. ids_removed p.meta.policy_id r.by_id source k e ∙ ground arith;
    deletes_none = ground arith;
  }

  pub compare_round-Leaves :
      (b : Bool) (r : Remaining) (p : PolicyInfo)
      → LeavesRound (p ∷ []) r (compare_round P generate b r p)
  unfolding compare_round
  compare_round-Leaves b r p = elim (Option-cases (optional_get p.meta.policy_id r.by_id)) [
    | inl (source, e) ↦ elim (Option-cases (compare P generate p source)) [
      | inl (ds, f) ↦ rw (e, compare_round) (rw f (by_id_round-Leaves b p source r ds e))
      | inr f ↦ rw (e, compare_round) (rw f tt)
    ]
    | inr e ↦ rw (e, compare_round) (by_etag_round-Leaves b p r e)
  ]

  Leaves-then_rest :
      (ps qs : List PolicyInfo) (r t : Remaining) (ds : List PolicyDif) (o : Option Round)
      → Leaves ps r ds t
      → LeavesRound qs t o
      → LeavesRound (ps ++ qs) r (then_rest ds o)
  Leaves-then_rest ps qs r t ds none h k = tt
  Leaves-then_rest ps qs r t ds (some (es, u)) h k = record {
    are_of = AreOf-append ds es ps qs h.are_of k.are_of;
    unique_ids = λ i. k.unique_ids (h.unique_ids i);
    unique_etags = λ i. k.unique_etags (h.unique_etags i);
    ids = λ i. ground (arith, h.ids i, k.ids i, any-append (has_id i) ps qs);
    deletes_none =
        ground (arith, h.deletes_none, k.deletes_none, all-append (λ d. not (is_delete d)) ds es);
  }

  pub compare_all-Leaves :
      (b : Bool) (r : Remaining) (ps : List PolicyInfo)
      → LeavesRound ps r (compare_all P generate b r ps)
  unfolding compare_all
  compare_all-Leaves b r [] = record {
    are_of = tt;
    unique_ids = λ u. u;
    unique_etags = λ u. u;
    ids = λ k. refl;
    deletes_none = refl;
  }
  compare_all-Leaves b r (p ∷ ps) =
      step (compare_round P generate b r p) (compare_round-Leaves b r p)
        (λ t. compare_all-Leaves b t ps)
    where
      step :
          (o : Option Round)
          → LeavesRound (p ∷ []) r o
          → ((t : Remaining) → LeavesRound ps t (compare_all P generate b t ps))
          → LeavesRound (p ∷ ps) r (after o (λ t. compare_all P generate b t ps))
      step none h k = tt
      step (some (ds, t)) h k =
          Leaves-then_rest (p ∷ []) ps r t ds (compare_all P generate b t ps) h (k t)

  pub add_existing-ids :
      (r : Remaining) (p : PolicyInfo) (k : Text)
      → Dict.get k (add_existing P generate r p).by_id
        ≡ or_get (if has_id k p then some p else none) (Dict.get k r.by_id)
  unfolding add_existing
  add_existing-ids r p k = elim (Option-cases p.meta.policy_id) [
    | inl (i, e) ↦ ground (arith, get-put i k p r.by_id)
    | inr e ↦ ground arith
  ]

  pub index_existing-ids :
      (r : Remaining) (ps : List PolicyInfo) (k : Text)
      → Dict.get k (index_existing P generate r ps).by_id
        ≡ or_get (last_with_id k ps) (Dict.get k r.by_id)
  unfolding index_existing
  index_existing-ids r [] k = refl
  index_existing-ids r (p ∷ ps) k =
      index_existing-ids (add_existing P generate r p) ps k
      ∙ ap (or_get (last_with_id k ps)) (add_existing-ids r p k)
      ∙ or_get_assoc (last_with_id k ps) (if has_id k p then some p else none) (Dict.get k r.by_id)
