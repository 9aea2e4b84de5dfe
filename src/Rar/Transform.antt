-- ===== src/Rar/Transform.antt =====
-- models/rar/policy_transformer.go and resource_action_role_policy_support.go: policies from roles,
-- policies merged by resource and action, and the roles to update.
pub mod Merge
pub mod Update
use policy_conditions.Base.{
  ℕ, Bool, true, false, not, ◌&&◌, ◌||◌, Option, none, some, List, [], ◌∷◌, ◌++◌, if◌then◌else◌,
}
use mathlib.Core.List.{reverse}
use policy_conditions.Base.Lists.{is_empty}
use policy_conditions.Base.Text.{Text, codes, text_eq, text_lt}
use policy_conditions.Base.Sort.{sort_texts}
use policy_conditions.Base.Dict
use policy_conditions.Base.Dict.{Dict}
use policy_conditions.Policy.Info.{PolicyInfo, no_meta, elements}
use policy_conditions.Rar.Slices.{is_blank, sort_compact, Split, diff_unique}
use policy_conditions.Rar.Roles.{
  ResourceActionRoles, name, make_rar_key_for_policy, new_resource_action_uri_roles,
}

head_text : List Text → Text
head_text [] = []
head_text (t ∷ ts) = t

-- The order of `sortPolicies`. The source reads `Actions[0]`, and each policy here has an action.
unfoldable pub sorts_before : PolicyInfo → PolicyInfo → Bool
unfolding head_text
sorts_before p q =
    if text_eq p.object q.object
    then not (text_lt (head_text (elements q.actions)) (head_text (elements p.actions)))
    else text_lt p.object q.object

-- `insertionSort` of the standard library: `p` moves left while it sorts before its neighbour. The
-- sorted part is held in reverse.
place : PolicyInfo → List PolicyInfo → List PolicyInfo
place p [] = p ∷ []
place p (q ∷ qs) = if sorts_before p q then q ∷ place p qs else p ∷ q ∷ qs

insert_all : List PolicyInfo → List PolicyInfo → List PolicyInfo
unfolding place
insert_all sorted [] = sorted
insert_all sorted (p ∷ ps) = insert_all (place p sorted) ps

-- `sortPolicies`
unfoldable pub sort_policies : List PolicyInfo → List PolicyInfo
unfolding insert_all
sort_policies ps = reverse (insert_all [] ps)

-- the policy of one record
build_policy : ResourceActionRoles → PolicyInfo
build_policy r = record {
  meta = record no_meta { version = codes "0.7"; provider_type = codes "RARmodel" };
  subjects = some (sort_texts r.roles);
  actions = some ((codes "http:" ++ r.action) ∷ []);
  object = r.resource;
  condition = none;
  scope = none;
}

build_all : List ResourceActionRoles → List PolicyInfo
unfolding build_policy
build_all [] = []
build_all (r ∷ rs) = build_policy r ∷ build_all rs

-- `BuildPolicies`
unfoldable pub build_policies : List ResourceActionRoles → List PolicyInfo
unfolding build_all
build_policies rs = sort_policies (build_all rs)

-- `CompactMembers`
unfoldable pub compact_members : List Text → List Text → List Text
compact_members existing added = sort_compact (existing ++ added)

-- `CompactActions`
unfoldable pub compact_actions : List Text → List Text → List Text
compact_actions existing added = sort_compact (existing ++ added)

abbrev pub members : Option PolicyInfo → List Text
members none = []
members (some p) = elements p.subjects

-- the policy `newPol`
unfoldable pub merged_policy : Text → Text → List Text → PolicyInfo
merged_policy act resource subjects = record {
  meta = record no_meta { version = codes "0.7" };
  subjects = some subjects;
  actions = some (act ∷ []);
  object = resource;
  condition = none;
  scope = none;
}

-- one round of the inner loop of `FlattenPolicy`
unfoldable pub merge_action : Text → List Text → Dict PolicyInfo → Text → Dict PolicyInfo
merge_action resource subjects m act =
    if is_blank act
    then m
    else let key = act ++ resource in
      let subjects' = compact_members (members (Dict.get key m)) subjects in
      Dict.put key (merged_policy act resource subjects') m

unfoldable pub merge_actions : Text → List Text → Dict PolicyInfo → List Text → Dict PolicyInfo
unfolding merge_action
merge_actions resource subjects m [] = m
merge_actions resource subjects m (a ∷ as') =
    merge_actions resource subjects (merge_action resource subjects m a) as'

-- one round of the outer loop
unfoldable pub merge_policy : Dict PolicyInfo → PolicyInfo → Dict PolicyInfo
unfolding merge_actions
merge_policy m p =
    if is_empty p.object
    then m
    else merge_actions p.object (elements p.subjects) m (elements p.actions)

unfoldable pub merge_all : Dict PolicyInfo → List PolicyInfo → Dict PolicyInfo
unfolding merge_policy
merge_all m [] = m
merge_all m (p ∷ ps) = merge_all (merge_policy m p) ps

-- `FlattenPolicy`
unfoldable pub flatten_policy : List PolicyInfo → List PolicyInfo
unfolding merge_all
flatten_policy ps = sort_policies (Dict.values (merge_all [] ps))

-- `findRolesToUpdate`; none where nothing has changed
unfoldable pub find_roles_to_update : List Text → List Text → Option (List Text)
find_roles_to_update existing added =
    let d = diff_unique existing added in
    if is_empty d.only_first && is_empty d.only_second
    then none
    else some (sort_compact (d.shared ++ d.only_second))

index_roles : Dict ResourceActionRoles → List ResourceActionRoles → Dict ResourceActionRoles
index_roles m [] = m
index_roles m (r ∷ rs) = index_roles (Dict.put (name r) r m) rs

-- `mapResourceActionRoles`
unfoldable pub map_resource_action_roles : List ResourceActionRoles → Dict ResourceActionRoles
unfolding index_roles
map_resource_action_roles = index_roles []

-- one round of the loop of `CalcResourceActionRolesForUpdate`
unfoldable pub role_update : Dict ResourceActionRoles → PolicyInfo → List ResourceActionRoles
unfolding head_text
role_update m p =
    let act = head_text (elements p.actions) in
    elim (Dict.get (make_rar_key_for_policy act p.object) m) [
      | none ↦ []
      | some r ↦ elim (find_roles_to_update r.roles (elements p.subjects)) [
        | none ↦ []
        | some roles ↦ new_resource_action_uri_roles p.object act roles ∷ []
      ]
    ]

role_updates : Dict ResourceActionRoles → List PolicyInfo → List ResourceActionRoles
unfolding role_update
role_updates m [] = []
role_updates m (p ∷ ps) = role_update m p ++ role_updates m ps

-- `CalcResourceActionRolesForUpdate`; its early return for an empty map or no policies returns what
-- the loop does there.
unfoldable pub calc_roles_for_update :
    List ResourceActionRoles → List PolicyInfo → List ResourceActionRoles
unfolding role_updates
calc_roles_for_update existing policies =
    let m = map_resource_action_roles existing in
    let flat = flatten_policy policies in
    if is_empty m || is_empty flat then [] else role_updates m flat
