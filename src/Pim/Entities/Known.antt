-- ===== src/Pim/Entities/Known.antt =====
-- What it takes for the subjects of a policy to pass their checks.
use policy_conditions.Base.{
  Bool-cases, Option-cases, Bool, true, false, ◌≡◌, refl, ◌↔◌, ◌⊎◌, inl, inr, none, some, List, [],
  ◌∷◌, ◌++◌, arith, if◌then◌else◌,
}
use policy_conditions.Base.Text.{Text}
use policy_conditions.Base.Dict
use policy_conditions.Base.Dict.{Dict}
use policy_conditions.Types.Entity.{Entity, parse_entity, get_type, get_namespace, rel_type}
use policy_conditions.Pim.Schema.{SchemaType, EntityType}
use policy_conditions.Pim.Entities
use policy_conditions.Pim.Entities.{Problem, is_anyone, is_none, applies}

pub append-empty : {A : Type 0} (xs ys : List A) → ((xs ++ ys) ≡ []) ↔ ((xs ≡ []) × (ys ≡ []))
append-empty [] ys = ((λ e. (refl, e)), λ (_, e). e)
append-empty (x ∷ xs) ys = ((λ e. ground (arith, e)), λ (e, _). ground (arith, e))

-- No error where the test holds
pub if-empty : (b : Bool) (p : Problem) → ((if b then [] else p ∷ []) ≡ []) ↔ (b ≡ true)
if-empty true p = ((λ e. refl), λ e. refl)
if-empty false p = ((λ e. ground (arith, e)), λ e. ground (arith, e))

module _ (namespaces : Dict SchemaType) (def_namespace : Text) where
  -- The entity's namespace has a schema, and that has the entity's type.
  abbrev pub IsKnown : Entity → Type 0
  IsKnown e =
      (s : SchemaType) × (t : EntityType) × (Dict.get (get_namespace def_namespace e) namespaces
        ≡ some s)
      × (Dict.get (get_type e) s.entity_types ≡ some t)

  -- Each subject is `any` or `anyAuthenticated`, or is known.
  abbrev pub AreKnown : List Text → Type 0
  AreKnown [] = Unit
  AreKnown (t ∷ ts) =
      ((is_anyone (rel_type (parse_entity t)) ≡ true) ⊎ IsKnown (parse_entity t)) × AreKnown ts

  subject_problems-IsKnown :
      (e : Entity)
      → (Entities.subject_problems namespaces def_namespace e ≡ [])
        ↔ ((is_anyone (rel_type e) ≡ true) ⊎ IsKnown e)
  unfolding Entities.subject_problems
  subject_problems-IsKnown e = (to, from)
    where
      problems : List Problem
      problems = Entities.subject_problems namespaces def_namespace e

      to : problems ≡ [] → (is_anyone (rel_type e) ≡ true) ⊎ IsKnown e
      to h = elim (Bool-cases (is_anyone (rel_type e))) [
        | inl a ↦ inl a
        | inr a ↦ elim (Option-cases (Dict.get (get_namespace def_namespace e) namespaces)) [
          | inl (s, i) ↦ elim (Option-cases (Dict.get (get_type e) s.entity_types)) [
            | inl (t, j) ↦ inr (s, t, i, j)
            | inr j ↦ ground (arith, h, a, i, j)
          ]
          | inr i ↦ ground (arith, h, a, i)
        ]
      ]

      from : (is_anyone (rel_type e) ≡ true) ⊎ IsKnown e → problems ≡ []
      from (inl a) = rw a refl
      from (inr (s, t, i, j)) =
          elim (is_anyone (rel_type e))
            as (λ b.
              (if b then [] else elim (Dict.get (get_namespace def_namespace e) namespaces) [
                | none ↦ Entities.subject_namespace (get_namespace def_namespace e) ∷ []
                | some s' ↦ elim (Dict.get (get_type e) s'.entity_types) [
                  | none ↦ Entities.subject_type (get_namespace def_namespace e) (get_type e) ∷ []
                  | some t' ↦ []
                ]
              ])
              ≡ []) [ true ↦ refl | false ↦ rw i (rw j refl) ]

  -- checkSubject gives no error exactly if each subject is any or anyAuthenticated, or names a type that
  -- the schema of its namespace has.
  pub check_subject-AreKnown :
      (ts : List Text) → (Entities.check_subject namespaces def_namespace ts ≡ []) ↔ AreKnown ts
  unfolding Entities.check_subject
  check_subject-AreKnown [] = ((λ e. tt), λ h. refl)
  check_subject-AreKnown (t ∷ ts) =
      let (f, g) =
        append-empty (Entities.subject_problems namespaces def_namespace (parse_entity t))
          (Entities.check_subject namespaces def_namespace ts) in
      let (h, k) = subject_problems-IsKnown (parse_entity t) in
      let (u, v) = check_subject-AreKnown ts in
      ((λ e. let (a, b) = f e in (h a, u b)), λ (a, b). g (k a, v b))
