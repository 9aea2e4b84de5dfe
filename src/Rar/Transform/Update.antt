-- ===== src/Rar/Transform/Update.antt =====
-- Which roles `findRolesToUpdate` leaves.
use policy_conditions.Base.{
  true, false, ◌&&◌, ◌≡◌, refl, ◌∙◌, Option, none, some, List, [], ◌∷◌, ◌++◌, arith, Bool-cases,
  inl, inr,
}
use policy_conditions.Base.Lists.{any-append, is_empty}
use policy_conditions.Base.Text.{Text, text_eq}
use policy_conditions.Rar.Slices.{is_blank, diff_unique}
use policy_conditions.Rar.Slices.Members.{has, sort_compact-members}
use policy_conditions.Rar.Slices.Unique.{diff_unique-members}
use policy_conditions.Rar.Transform.{find_roles_to_update}

-- the roles once the update is carried out
abbrev pub updated : List Text → Option (List Text) → List Text
updated existing none = existing
updated existing (some roles) = roles

has-nil : (x : Text) (ts : List Text) → is_empty ts ≡ true → has x ts ≡ false
has-nil x [] h = refl
has-nil x (t ∷ ts) h = ground arith

-- Once the update is carried out, the roles that are not blank are those of the policy: none of the
-- earlier ones is left beside them, and none of the new ones is missing. Where there is no update,
-- the earlier roles are the policy's already.
pub find_roles_to_update-roles :
    (x : Text) (existing added : List Text)
    → is_blank x ≡ false
    → has x (updated existing (find_roles_to_update existing added)) ≡ has x added
unfolding find_roles_to_update
find_roles_to_update-roles x existing added h =
    let d = diff_unique existing added in
    let (first, shared, second) = diff_unique-members x existing added h in
    elim (Bool-cases (is_empty d.only_first && is_empty d.only_second)) [
      | inl e ↦
          rw (e, find_roles_to_update)
            (ground (arith, first, second, has-nil x d.only_first, has-nil x d.only_second))
      | inr e ↦
          rw (e, find_roles_to_update)
            (sort_compact-members x (d.shared ++ d.only_second) h
              ∙ any-append (text_eq x) d.shared d.only_second
              ∙ ground (arith, shared, second))
    ]
