-- ===== src/Cedar/Scope/RoundTrip.antt =====
-- A scope of a Cedar policy, mapped to IDQL and back.
use policy_conditions.Base.{
  ℕ, leb, true, false, ◌≡◌, refl, sym, ap, ap₂, ◌∙◌, none, some, List, [], ◌∷◌, ◌++◌, map, arith,
  and-true,
}
use policy_conditions.Base.Lists.{all}
use policy_conditions.Base.Text.{Text, codes, equal_fold, lower, join}
use policy_conditions.Types.Entity
use policy_conditions.Types.Entity.{
  RelType, Entity, entity, absent, members, of_list, is_in, in_set, equals, parse_entity,
}
use policy_conditions.Types.Entity.Shape.{
  allowed, IsSegment, AreSegments, IsId, instance_of, of_type, AreSimple, IsCanonical, simple,
  within, type_within, IsSimple,
}
use policy_conditions.Types.Entity.RoundTrip.{parse_entity-to_string}
use policy_conditions.Types.Quote.{quote}
use policy_conditions.Cedar.Scope.{
  Uid, Verb, principal, action, resource, verb_text, Scope, split_types, whole_entity,
  map_cedar_scope, refs_after, set_text, comma, entity_value, member_value, map_hexa_value,
}
use policy_conditions.Cedar.Scope.Texts.{
  quoted_twice, refs_behind, set_of, scope_texts, IsRef, AreRefs, IsReadBack,
}
use policy_conditions.Cedar.Scope.Splitting.{equal_fold-mark, join-split_types, split_types-cons}

-- The text of an entity with a colon or a bracket is mapped as the entity.
member_value-filled :
    (verb : Verb) (w : Text) (c : ℕ) (r : Text)
    → member_value verb (w ++ (c ∷ r)) ≡ entity_value verb (parse_entity (w ++ (c ∷ r)))
member_value-filled verb [] c r = refl
member_value-filled verb (x ∷ w) c r = refl

value-marked :
    (verb : Verb) (w : Text) (c : ℕ) (r : Text)
    → leb b'a' (lower c) ≡ false
    → map_hexa_value verb (w ++ (c ∷ r)) ≡ entity_value verb (parse_entity (w ++ (c ∷ r)))
unfolding map_hexa_value lower
value-marked principal w c r h =
    rw
      (
        equal_fold-mark w c r (codes "any") h refl,
        equal_fold-mark w c r (codes "anyAuthenticated") h refl,
      )
      (member_value-filled principal w c r)
value-marked action w c r h = member_value-filled action w c r
value-marked resource w c r h = member_value-filled resource w c r

value-canonical :
    (verb : Verb) (w : Text) (c : ℕ) (r : Text) {e : Entity}
    → leb b'a' (lower c) ≡ false
    → Entity.to_string e ≡ w ++ (c ∷ r)
    → IsCanonical e
    → map_hexa_value verb (Entity.to_string e) ≡ entity_value verb e
value-canonical verb w c r h k g =
    ap (map_hexa_value verb) k
    ∙ value-marked verb w c r h
    ∙ ap (λ t. entity_value verb (parse_entity t)) (sym k)
    ∙ ap (entity_value verb) (parse_entity-to_string g)

instance-value :
    (verb : Verb) (ts : List Text) (i : Text)
    → ((t : Text) × (us : List Text) × ts ≡ t ∷ us)
    → AreSegments false ts
    → IsId false i
    → map_hexa_value verb (Entity.to_string (entity ts equals (some i) absent))
      ≡ entity_value verb (entity ts equals (some i) absent)
unfolding Entity.to_string
instance-value verb [] i (t, us, h) g k = cc
instance-value verb (t ∷ ts) i h g k =
    value-canonical verb (join (b':' ∷ []) (t ∷ ts)) b':' i (unfold lower in refl) refl
      (simple (instance_of (t ∷ ts) i g k))

ref-IsSimple : (u : Uid) → IsRef u → IsSimple true (whole_entity u)
ref-IsSimple u (g, h) = instance_of (u.type ∷ []) (quote u.id) (g, tt) h

refs-AreSimple : (us : List Uid) → AreRefs us → AreSimple (map whole_entity us)
refs-AreSimple [] h = tt
refs-AreSimple (u ∷ us) (h, hs) = (ref-IsSimple u h, refs-AreSimple us hs)

refs_after-map : (us : List Uid) → refs_after (of_list (map whole_entity us)) ≡ refs_behind us
unfolding join
refs_after-map [] = refl
refs_after-map (u ∷ us) = ap (λ t. codes "," ++ (quoted_twice u ++ t)) (refs_after-map us)

set_text-map :
    (u : Uid) (us : List Uid)
    → set_text (members (of_list (map whole_entity (u ∷ us)))) ≡ set_of (u ∷ us)
unfolding join
set_text-map u [] = refl
set_text-map u (v ∷ us) =
    ap (λ t. codes "[" ++ (quoted_twice u ++ (t ++ codes "]"))) (refs_after-map (v ∷ us))

set-value :
    (verb : Verb) (u : Uid) (us : List Uid)
    → IsRef u
    → AreRefs us
    → map_hexa_value verb
        (Entity.to_string (entity [] in_set none (members (of_list (map whole_entity (u ∷ us))))))
      ≡ verb_text verb ++ (codes " in " ++ (set_of (u ∷ us) ++ comma verb))
unfolding Entity.to_string
set-value verb u us g gs =
    value-canonical verb [] b'[' _ (unfold lower in refl) refl
      (within (whole_entity u) (map whole_entity us) (ref-IsSimple u g, refs-AreSimple us gs))
    ∙ ap (λ t. verb_text verb ++ (codes " in " ++ (t ++ comma verb))) (set_text-map u us)

IsSegment-weaken : (t : Text) → IsSegment true t → IsSegment false t
IsSegment-weaken [] h = refl
IsSegment-weaken (c ∷ t) h =
    let (here, later) = and-true (allowed true c) (all (allowed true) t) h in
    ground (arith, IsSegment-weaken t later)

IsId-weaken : (i : Text) → IsId true i → IsId false i
IsId-weaken [] h = h
IsId-weaken (c ∷ cs) (h, k, l) = (IsSegment-weaken (c ∷ cs) h, k, l)

-- an entity, alone or among several of an action
whole-value :
    (verb : Verb) (u : Uid)
    → IsRef u
    → map_hexa_value verb (Entity.to_string (whole_entity u)) ≡ entity_value verb (whole_entity u)
whole-value verb u (g, h) =
    instance-value verb (u.type ∷ []) (quote u.id) (u.type, [], refl)
      (IsSegment-weaken u.type g, tt) (IsId-weaken (quote u.id) h)

actions-back :
    (us : List Uid)
    → AreRefs us
    → map (map_hexa_value action) (map (λ u. Entity.to_string (whole_entity u)) us)
      ≡ map quoted_twice us
unfolding join
actions-back [] h = refl
actions-back (u ∷ us) (h, hs) = ap₂ (λ x xs. x ∷ xs) (whole-value action u h) (actions-back us hs)

equal-back :
    (verb : Verb) (u : Uid)
    → IsReadBack (Scope.equal u)
    → map (map_hexa_value verb) (map_cedar_scope verb (Scope.equal u))
      ≡ scope_texts verb (Scope.equal u)
unfolding map_cedar_scope
equal-back action u (g, h) =
    ap (λ t. t ∷ [])
      (instance-value action (split_types u.type) (quote u.id) (split_types-cons u.type) g h
        ∙ ap (λ t. t ++ (codes "::" ++ quote (quote u.id))) (join-split_types u.type))
equal-back principal u (g, h) =
    ap (λ t. t ∷ [])
      (instance-value principal (split_types u.type) (quote u.id) (split_types-cons u.type) g h
        ∙ ap
            (λ t. codes "principal == " ++ ((t ++ (codes "::" ++ quote (quote u.id))) ++ codes ","))
            (join-split_types u.type))
equal-back resource u (g, h) =
    ap (λ t. t ∷ [])
      (instance-value resource (split_types u.type) (quote u.id) (split_types-cons u.type) g h
        ∙ ap (λ t. codes "resource == " ++ ((t ++ (codes "::" ++ quote (quote u.id))) ++ []))
            (join-split_types u.type))

type-back :
    (verb : Verb) (t : Text)
    → IsSegment false t
    → map_hexa_value verb (Entity.to_string (entity (t ∷ []) RelType.is none absent))
      ≡ verb_text verb ++ (codes " is " ++ (t ++ comma verb))
unfolding Entity.to_string join
type-back verb t h =
    value-canonical verb t b':' [] (unfold lower in refl) refl
      (simple (of_type {t = t} {ts = []} (h, tt)))

type_in-back :
    (verb : Verb) (t : Text) (u : Uid)
    → IsReadBack (Scope.is_type_in t u)
    → map_hexa_value verb (
        Entity.to_string (
          entity
            (t ∷ [])
            is_in
            none
            (members (of_list (parse_entity (u.type ++ (codes ":" ++ quote u.id)) ∷ [])))))
      ≡ verb_text verb ++ (codes " is " ++ (t ++ (codes " in " ++ (quoted_twice u ++ comma verb))))
unfolding Entity.to_string join
type_in-back verb t u (g, f, (j, k)) =
    let h : parse_entity (u.type ++ (codes ":" ++ quote u.id)) ≡ whole_entity u =
      parse_entity-to_string (
        simple (
          instance_of (u.type ∷ []) (quote u.id) (IsSegment-weaken u.type j, tt)
            (IsId-weaken (quote u.id) k))) in
    ap
      (λ e.
        map_hexa_value verb
          (Entity.to_string (entity (t ∷ []) is_in none (members (of_list (e ∷ []))))))
      h
    ∙ value-canonical verb t b'[' _ (unfold lower in refl) refl
        (type_within {t = t} {ts = []} (whole_entity u) [] (g, tt) f (ref-IsSimple u (j, k), tt))

-- A scope that is mapped to IDQL and back keeps its form, but each identifier is quoted once more. The
-- type of an `is` and of an entity in a set is one segment; no identifier has a `:` or a bracket, or in a
-- set a comma.
pub map_hexa_value-map_cedar_scope :
    (verb : Verb) (s : Scope)
    → IsReadBack s
    → map (map_hexa_value verb) (map_cedar_scope verb s) ≡ scope_texts verb s
unfolding map_cedar_scope
map_hexa_value-map_cedar_scope principal Scope.all g =
    unfold map_hexa_value in unfold equal_fold in refl
map_hexa_value-map_cedar_scope action Scope.all g = refl
map_hexa_value-map_cedar_scope resource Scope.all g = refl
map_hexa_value-map_cedar_scope verb (Scope.equal u) g = equal-back verb u g
map_hexa_value-map_cedar_scope verb (Scope.is_type t) g = ap (λ x. x ∷ []) (type-back verb t g)
map_hexa_value-map_cedar_scope verb (Scope.is_type_in t u) g =
    ap (λ x. x ∷ []) (type_in-back verb t u g)
map_hexa_value-map_cedar_scope verb (Scope.in_one u) g = ap (λ x. x ∷ []) (set-value verb u [] g tt)
map_hexa_value-map_cedar_scope verb (Scope.in_many []) g = ground (arith, g)
map_hexa_value-map_cedar_scope action (Scope.in_many (u ∷ us)) g = actions-back (u ∷ us) g
map_hexa_value-map_cedar_scope principal (Scope.in_many (u ∷ us)) (g, gs) =
    ap (λ x. x ∷ []) (set-value principal u us g gs)
map_hexa_value-map_cedar_scope resource (Scope.in_many (u ∷ us)) (g, gs) =
    ap (λ x. x ∷ []) (set-value resource u us g gs)
map_hexa_value-map_cedar_scope verb Scope.other_op g = ground (arith, g)
