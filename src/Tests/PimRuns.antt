-- ===== src/Tests/PimRuns.antt =====
-- The properties of the validation at concrete schemas and policies.
use mathlib.Core.Path.{subst}
use policy_conditions.Base.{
  ℕ, ◌+◌, ◌<◌, Bool, true, false, ◌≡◌, refl, ◌↔◌, inl, inr, Option, none, some, List, [], ◌∷◌,
  arith,
}
use policy_conditions.Base.Text.{Text, codes, text_eq, equal_fold}
use policy_conditions.Base.Dict
use policy_conditions.Base.Dict.{Dict}
use policy_conditions.Types.Entity.{Entity, entity, equals, absent}
use policy_conditions.Policy.Info.{PolicyInfo, no_meta, elements}
use policy_conditions.Pim.Schema.{
  SchemaType, AttrType, attr_type, no_element, Attributes, entry, end, ActionType, EntityType,
  find_attr_type, do_find_attr, is_builtin, split_path,
}
use policy_conditions.Pim.Schema.Ends.{Ranked, Below, find_attr_type-ends, find_attr-never_ends}
use policy_conditions.Pim.Entities.{Problem, subject_namespace, check_action}
use policy_conditions.Pim.Entities.Allowed.{AreAllowed, check_action-AreAllowed}
use policy_conditions.Pim.Operands.Returns.{AreRanked, HasWholeRule}
use policy_conditions.Pim.Validate.{validate_policy, validate_policies}
use policy_conditions.Pim.Validate.Reported.{last_report, get-validate_policies}
use policy_conditions.Pim.Validate.Returns.{validate_policy-returns}
use policy_conditions.Tests.Sample.{sample, condition_of}

abbrev person : Attributes
person = entry (codes "age") (attr_type (codes "Long") no_element end) end

abbrev user : EntityType
user = record {
  member_of_types = [];
  shape =
      entry (codes "name") (attr_type (codes "String") no_element end)
        (entry (codes "person") (attr_type (codes "PersonType") no_element end) end);
}

abbrev view : ActionType
view = record {
  member_of = [];
  applies_to = record {
    principal_types = some (codes "User" ∷ []);
    resource_types = none;
    context = none;
  };
}

abbrev photos : SchemaType
photos = record {
  entity_types = (codes "User", user) ∷ [];
  actions = (codes "view", view) ∷ [];
  common_types = (codes "PersonType", person) ∷ [];
}

abbrev schemas : Dict SchemaType
schemas = (codes "Photos", photos) ∷ []

abbrev rank_zero : Text → ℕ
rank_zero t = 0

get-one : {V : Type 0} (k j : Text) (v w : V) → Dict.get j ((k, v) ∷ []) ≡ some w → v ≡ w
unfolding Dict.get
get-one k j v w e = ground (arith, e)

photos-Ranked : Ranked photos rank_zero 1
unfolding Dict.get text_eq
photos-Ranked t c e =
    subst (λ x. (0 < 1) × Below photos rank_zero 1 0 x) (get-one (codes "PersonType") t person c e)
      (omega arith, ((λ x h. ground (arith, h)), tt))

schemas-AreRanked : AreRanked schemas (codes "Photos") (λ ns. rank_zero) 1 40
schemas-AreRanked ns s e =
    subst (λ x. Ranked x rank_zero 1) (get-one (codes "Photos") ns photos s e) photos-Ranked

abbrev user_age : Entity
user_age = entity (codes "Photos" ∷ codes "User" ∷ []) equals (some (codes "age")) absent

find_attr_type-ends_example : (x : Option AttrType) × (find_attr_type photos 40 user_age ≡ some x)
find_attr_type-ends_example =
    find_attr_type-ends photos rank_zero 1 40 user_age (codes "age") photos-Ranked refl
      (omega arith)

abbrev boss : Attributes
boss = entry (codes "boss") (attr_type (codes "Staff") no_element end) end

abbrev staff : SchemaType
staff = record { entity_types = []; actions = []; common_types = (codes "Staff", boss) ∷ [] }

staff-builtin : is_builtin (codes "Staff") ≡ false
unfolding is_builtin text_eq
staff-builtin = refl

name-boss : equal_fold (split_path (codes "name")).0 (codes "boss") ≡ false
unfolding equal_fold split_path
name-boss = refl

get-staff : Dict.get (codes "Staff") staff.common_types ≡ some boss
unfolding Dict.get text_eq
get-staff = refl

find_attr-never_ends_example : do_find_attr staff 9 boss (codes "name") ≡ none
find_attr-never_ends_example =
    find_attr-never_ends staff (codes "Staff") (codes "boss") (codes "name") no_element end
      staff-builtin refl name-boss get-staff 9

abbrev plain : Text → Text
plain t = t

abbrev view_photo : PolicyInfo
view_photo = record {
  meta = no_meta;
  subjects = some (codes "User:ann" ∷ []);
  actions = some (codes "view" ∷ []);
  object = codes "Photos";
  condition = some (condition_of (codes "a pr or b pr and c pr"));
  scope = none;
}

check_action-AreAllowed_example :
    (check_action schemas (codes "Photos") plain view_photo ≡ [])
    ↔ AreAllowed schemas (codes "Photos") plain view_photo (elements view_photo.actions)
check_action-AreAllowed_example = check_action-AreAllowed schemas (codes "Photos") plain view_photo

rule-whole :
    HasWholeRule schemas (codes "Photos") (λ ns. rank_zero) 1 40 sample view_photo.condition
unfolding policy_conditions.Parser.Loop.parse_filter policy_conditions.Parser.Step.case_of
    policy_conditions.Parser.Step.combine equal_fold
    policy_conditions.Parser.State.create_expression text_eq policy_conditions.Base.Text.to_lower
    policy_conditions.Types.Value.Parse.parse_value policy_conditions.Base.Text.has_prefix
    policy_conditions.Base.Text.trim_space policy_conditions.Types.Value.Numeric.is_numeric
    policy_conditions.Conditions.Walk.find_entity_uses policy_conditions.Types.Entity.parse_entity
rule-whole = (
  ((codes "a", refl, omega arith), tt, refl),
  (((codes "b", refl, omega arith), tt, refl), (((codes "c", refl, omega arith), tt, refl), tt)),
)

same-name : equal_fold (codes "Photos") (codes "Photos") ≡ true
unfolding equal_fold
same-name = refl

validate_policy-returns_example :
    (es : List Problem) × (validate_policy schemas (codes "Photos") plain sample 40 view_photo
      ≡ some es)
validate_policy-returns_example =
    validate_policy-returns schemas (codes "Photos") (λ ns. rank_zero) 1 40 sample plain view_photo
      schemas-AreRanked (inl same-name) rule-whole

abbrev decimal_one : ℕ → Text
decimal_one i = codes "1"

abbrev stranger : Text → PolicyInfo
stranger subject = record {
  meta = record no_meta { policy_id = some (codes "p") };
  subjects = some (subject ∷ []);
  actions = none;
  object = [];
  condition = none;
  scope = none;
}

abbrev reports : Dict (List Problem)
reports = (codes "Policy-p", subject_namespace (codes "B") ∷ []) ∷ []

reports-strangers :
    validate_policies []
      (codes "app")
      plain
      sample
      decimal_one
      0
      (stranger (codes "A:User:ann") ∷ stranger (codes "B:User:ann") ∷ [])
    ≡ some reports
unfolding validate_policies policy_conditions.Types.Entity.parse_entity equal_fold Dict.get Dict.put
    text_eq policy_conditions.Types.Entity.get_namespace
reports-strangers = refl

get-validate_policies_example :
    Dict.get (codes "Policy-p") reports
    ≡ last_report []
        (codes "app")
        plain
        sample
        decimal_one
        0
        (codes "Policy-p")
        0
        (stranger (codes "A:User:ann") ∷ stranger (codes "B:User:ann") ∷ [])
get-validate_policies_example =
    get-validate_policies [] (codes "app") plain sample decimal_one 0 (codes "Policy-p")
      (stranger (codes "A:User:ann") ∷ stranger (codes "B:User:ann") ∷ []) reports-strangers
