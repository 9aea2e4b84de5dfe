-- ===== src/Pim/Entities/Allowed.antt =====
-- What it takes for the actions of a policy to pass their checks.
use policy_conditions.Base.{
  Bool, Bool-cases, Option-cases, true, false, ◌≡◌, refl, ◌&&◌, ◌||◌, ◌++◌, ◌⊎◌, ◌↔◌, inl, inr,
  Option, none, some, List, [], ◌∷◌, arith, if◌then◌else◌,
}
use policy_conditions.Base.Text.{Text, codes, text_eq, text_eq_iff, equal_fold, contains}
use policy_conditions.Base.Dict
use policy_conditions.Base.Dict.{Dict}
use policy_conditions.Types.Entity
use policy_conditions.Types.Entity.{
  RelType, any, any_authenticated, is_in, in_set, equals, empty, other, Entity, parse_entity,
  get_type, get_namespace, id, rel_type,
}
use policy_conditions.Policy.Info.{PolicyInfo, elements}
use policy_conditions.Pim.Schema.{SchemaType, ActionType, AppliesType}
use policy_conditions.Pim.Entities
use policy_conditions.Pim.Entities.{Problem, is_anyone, is_none, applies}
use policy_conditions.Pim.Entities.Known.{append-empty, if-empty}

-- A type with a colon is the entity's with its namespace in front, and one without is the entity's own,
-- in the namespace of the action; case does not matter in either.
abbrev pub IsOf : Text → Text → Entity → Text → Type 0
IsOf action_namespace namespace e t =
    ((contains t (codes ":") ≡ true)
      × (equal_fold t (namespace ++ (codes ":" ++ get_type e)) ≡ true))
    ⊎ ((contains t (codes ":") ≡ false)
        × (action_namespace ≡ namespace)
        × (equal_fold (get_type e) t ≡ true))

abbrev pub IsOfOne : Text → Text → Entity → List Text → Type 0
IsOfOne action_namespace namespace e [] = ⊥
IsOfOne action_namespace namespace e (t ∷ ts) =
    IsOf action_namespace namespace e t ⊎ IsOfOne action_namespace namespace e ts

test-IsOf :
    (a n : Text) (e : Entity) (t : Text)
    → ((if contains t (codes ":")
          then equal_fold t (n ++ (codes ":" ++ get_type e))
          else text_eq a n && equal_fold (get_type e) t)
        ≡ true)
      ↔ IsOf a n e t
test-IsOf a n e t = elim (Bool-cases (contains t (codes ":"))) [
  | inl h ↦ rw h ((λ k. inl (refl, k)), λ k. elim k [ inl x ↦ x.1 | inr x ↦ ground (arith, x.0) ])
  | inr h ↦ rw h (
    (λ k. inr (refl, (text_eq_iff a n).0 (ground (arith, k)), ground (arith, k))),
    λ k. elim k [
      | inl x ↦ ground (arith, x.0)
      | inr x ↦ ground (arith, (text_eq_iff a n).1 x.1, x.2)
    ],
  )
]

or-either :
    (b c : Bool) {A B : Type 0} → (b ≡ true) ↔ A → (c ≡ true) ↔ B → ((b || c) ≡ true) ↔ (A ⊎ B)
or-either true c (f, g) (h, k) = ((λ e. inl (f refl)), λ e. refl)
or-either false c (f, g) (h, k) =
    ((λ e. inr (h e)), λ e. elim e [ inl x ↦ ground (arith, g x) | inr x ↦ k x ])

applies-IsOfOne :
    (a n : Text) (e : Entity) (ts : List Text) → (applies a n e ts ≡ true) ↔ IsOfOne a n e ts
unfolding applies
applies-IsOfOne a n e [] = ((λ h. ground (arith, h)), λ h. elim h [ ])
applies-IsOfOne a n e (t ∷ ts) =
    or-either
      (if contains t (codes ":")
        then equal_fold t (n ++ (codes ":" ++ get_type e))
        else text_eq a n && equal_fold (get_type e) t)
      (applies a n e ts) (test-IsOf a n e t) (applies-IsOfOne a n e ts)

is_none-empty : (r : RelType) → (is_none r ≡ true) ↔ (r ≡ empty)
unfolding is_none
is_none-empty r = (to r, λ h. rw h refl)
  where
    to : (r : RelType) → is_none r ≡ true → r ≡ empty
    to empty h = refl
    to any h = ground (arith, h)
    to any_authenticated h = ground (arith, h)
    to RelType.is h = ground (arith, h)
    to is_in h = ground (arith, h)
    to in_set h = ground (arith, h)
    to equals h = ground (arith, h)
    to (other t) h = ground (arith, h)

is_anyone-any : (r : RelType) → (is_anyone r ≡ true) ↔ ((r ≡ any) ⊎ (r ≡ any_authenticated))
unfolding is_anyone
is_anyone-any r = (to r, λ h. elim h [ inl e ↦ rw e refl | inr e ↦ rw e refl ])
  where
    to : (r : RelType) → is_anyone r ≡ true → (r ≡ any) ⊎ (r ≡ any_authenticated)
    to any h = inl refl
    to any_authenticated h = inr refl
    to empty h = ground (arith, h)
    to RelType.is h = ground (arith, h)
    to is_in h = ground (arith, h)
    to in_set h = ground (arith, h)
    to equals h = ground (arith, h)
    to (other t) h = ground (arith, h)

module _ (namespaces : Dict SchemaType) (def_namespace : Text) where
  -- Each subject is `any`, `anyAuthenticated` or blank, or is of one of the types.
  abbrev pub ApplyTo : Text → List Text → List Text → Type 0
  ApplyTo namespace types [] = Unit
  ApplyTo namespace types (t ∷ ts) =
      (((rel_type (parse_entity t) ≡ any) ⊎ (rel_type (parse_entity t) ≡ any_authenticated))
        ⊎ (((rel_type (parse_entity t) ≡ empty)
            ⊎ IsOfOne namespace (get_namespace def_namespace (parse_entity t)) (parse_entity t)
                types)))
      × ApplyTo namespace types ts

  abbrev pub SubjectsFit : Text → PolicyInfo → Option (List Text) → Type 0
  SubjectsFit namespace p none = Unit
  SubjectsFit namespace p (some ts) = ApplyTo namespace ts (elements p.subjects)

  -- The object is blank, or is of one of the types.
  abbrev pub ObjectFits : Text → PolicyInfo → Option (List Text) → Type 0
  ObjectFits namespace p none = Unit
  ObjectFits namespace p (some ts) =
      (rel_type (parse_entity p.object) ≡ empty)
      ⊎ IsOfOne namespace (get_namespace def_namespace (parse_entity p.object))
          (parse_entity p.object) ts

  -- An action that is limited to some types of subjects or resources is applied to such ones only.
  abbrev pub IsApplicable : Text → AppliesType → PolicyInfo → Type 0
  IsApplicable namespace a p =
      SubjectsFit namespace p a.principal_types × ObjectFits namespace p a.resource_types

  principal_problems-ApplyTo :
      (namespace : Text) (types ts : List Text)
      → (Entities.principal_problems namespaces def_namespace namespace types ts ≡ [])
        ↔ ApplyTo namespace types ts
  unfolding Entities.principal_problems
  principal_problems-ApplyTo namespace types [] = ((λ e. tt), λ h. refl)
  principal_problems-ApplyTo namespace types (t ∷ ts) =
      let e = parse_entity t in
      let ok =
        is_anyone (rel_type e)
        || (is_none (rel_type e) || applies namespace (get_namespace def_namespace e) e types) in
      let (f, g) =
        append-empty (if ok then [] else Entities.not_for_subject (Entity.to_string e) ∷ [])
          (Entities.principal_problems namespaces def_namespace namespace types ts) in
      let (h, k) = if-empty ok (Entities.not_for_subject (Entity.to_string e)) in
      let (x, y) =
        or-either (is_anyone (rel_type e))
          (is_none (rel_type e) || applies namespace (get_namespace def_namespace e) e types)
          (is_anyone-any (rel_type e))
          (or-either (is_none (rel_type e))
            (applies namespace (get_namespace def_namespace e) e types) (is_none-empty (rel_type e))
            (applies-IsOfOne namespace (get_namespace def_namespace e) e types)) in
      let (u, v) = principal_problems-ApplyTo namespace types ts in
      ((λ q. let (a, b) = f q in (x (h a), u b)), λ (a, b). g (k (y a), v b))

  check_applies_to-IsApplicable :
      (namespace : Text) (a : AppliesType) (p : PolicyInfo)
      → (Entities.check_applies_to namespaces def_namespace namespace a p ≡ [])
        ↔ IsApplicable namespace a p
  unfolding Entities.check_applies_to Entities.resource_problems
  check_applies_to-IsApplicable namespace a p =
      let (f, g) =
        append-empty
          (elim a.principal_types [
            | none ↦ []
            | some ts ↦
                Entities.principal_problems namespaces def_namespace namespace ts
                  (elements p.subjects)
          ])
          (elim a.resource_types [
            | none ↦ []
            | some ts ↦ Entities.resource_problems namespaces def_namespace namespace ts p.object
          ]) in
      let (h, k) = principals a.principal_types in
      let (u, v) = resources a.resource_types in
      ((λ q. let (x, y) = f q in (h x, u y)), λ (x, y). g (k x, v y))
    where
      principals :
          (o : Option (List Text))
          → (elim o [
            | none ↦ []
            | some ts ↦
                Entities.principal_problems namespaces def_namespace namespace ts
                  (elements p.subjects)
          ]
              ≡ [])
            ↔ SubjectsFit namespace p o
      principals none = ((λ e. tt), λ h. refl)
      principals (some ts) = principal_problems-ApplyTo namespace ts (elements p.subjects)

      resources :
          (o : Option (List Text))
          → (elim o [
            | none ↦ []
            | some ts ↦ Entities.resource_problems namespaces def_namespace namespace ts p.object
          ]
              ≡ [])
            ↔ ObjectFits namespace p o
      resources none = ((λ e. tt), λ h. refl)
      resources (some ts) =
          let e = parse_entity p.object in
          let fits = applies namespace (get_namespace def_namespace e) e ts in
          let (h, k) = if-empty (is_none (rel_type e) || fits) (Entities.not_for_object p.object) in
          let (x, y) =
            or-either (is_none (rel_type e)) fits (is_none-empty (rel_type e))
              (applies-IsOfOne namespace (get_namespace def_namespace e) e ts) in
          ((λ q. x (h q)), λ q. k (y q))

  module _ (unquote : Text → Text) where
    -- The action is one of the schema of its namespace, and applies to the subjects and the object.
    abbrev pub IsAllowed : PolicyInfo → Entity → Type 0
    IsAllowed p e =
        (s : SchemaType) × (a : ActionType) × (Dict.get (get_namespace def_namespace e) namespaces
          ≡ some s)
        × (Dict.get (Entities.get_id namespaces def_namespace unquote e) s.actions ≡ some a)
        × IsApplicable (get_namespace def_namespace e) a.applies_to p

    abbrev pub AreAllowed : PolicyInfo → List Text → Type 0
    AreAllowed p [] = Unit
    AreAllowed p (t ∷ ts) = IsAllowed p (parse_entity t) × AreAllowed p ts

    action_problems-IsAllowed :
        (p : PolicyInfo) (e : Entity)
        → (Entities.action_problems namespaces def_namespace unquote p e ≡ []) ↔ IsAllowed p e
    unfolding Entities.action_problems
    action_problems-IsAllowed p e = (to, from)
      where
        problems : List Problem
        problems = Entities.action_problems namespaces def_namespace unquote p e

        schemas : Option SchemaType
        schemas = Dict.get (get_namespace def_namespace e) namespaces

        to : problems ≡ [] → IsAllowed p e
        to h = elim (Option-cases schemas) [
          | inl (s, i) ↦
              elim (Option-cases
                (Dict.get (Entities.get_id namespaces def_namespace unquote e) s.actions)) [
                  | inl (a, j) ↦ (
                    s,
                    a,
                    i,
                    j,
                    (check_applies_to-IsApplicable (get_namespace def_namespace e) a.applies_to p).0
                        (ground (arith, h, i, j)),
                  )
                  | inr j ↦ ground (arith, h, i, j)
                ]
          | inr i ↦ ground (arith, h, i)
        ]

        from : IsAllowed p e → problems ≡ []
        from (s, a, i, j, k) =
            rw (i, Entities.action_problems)
              (rw j (
                (check_applies_to-IsApplicable (get_namespace def_namespace e) a.applies_to p).1 k))

    each_action-AreAllowed :
        (p : PolicyInfo) (ts : List Text)
        → (Entities.each_action namespaces def_namespace unquote p ts ≡ []) ↔ AreAllowed p ts
    unfolding Entities.each_action
    each_action-AreAllowed p [] = ((λ e. tt), λ h. refl)
    each_action-AreAllowed p (t ∷ ts) =
        let (f, g) =
          append-empty
            (Entities.action_problems namespaces def_namespace unquote p (parse_entity t))
            (Entities.each_action namespaces def_namespace unquote p ts) in
        let (h, k) = action_problems-IsAllowed p (parse_entity t) in
        let (u, v) = each_action-AreAllowed p ts in
        ((λ q. let (a, b) = f q in (h a, u b)), λ (a, b). g (k a, v b))

    -- checkAction gives no error exactly if the schema of each action's namespace has the action, and where
    -- the action is limited to types of subjects or resources, each subject that is not any,
    -- anyAuthenticated or blank, and an object that is not blank, is of one of them.
    pub check_action-AreAllowed :
        (p : PolicyInfo)
        → (Entities.check_action namespaces def_namespace unquote p ≡ [])
          ↔ AreAllowed p (elements p.actions)
    unfolding Entities.check_action
    check_action-AreAllowed p = each_action-AreAllowed p (elements p.actions)
