-- ===== src/Azure.antt =====
-- providers/azure/azureProvider/azure_policy_mapper.go: policies of the roles of an application.
pub mod Assigned
use policy_conditions.Base.{
  Bool, true, false, Option, none, some, List, [], ◌∷◌, ◌++◌, if◌then◌else◌,
}
use policy_conditions.Base.Lists.{is_empty}
use policy_conditions.Base.Text.{Text, codes}
use policy_conditions.Base.Dict
use policy_conditions.Base.Dict.{Dict}
use policy_conditions.Policy.Info.{PolicyInfo, MetaInfo, no_meta}

-- `azad.AzureAppRole`, as far as the mapper reads it
pub record AppRole : Type 0 where
  pub role_id : Text
  pub value : Text
  pub description : Text
  pub is_enabled : Bool
  pub allowed_member_types : List Text

-- `azad.AzureAppRoleAssignment`, as far as the mapper reads it
pub record Assignment : Type 0 where
  pub app_role_id : Text
  pub principal_id : Text

-- an element of `azad.AzureServicePrincipals.List`
pub record ServicePrincipal : Type 0 where
  pub name : Text
  pub app_roles : List AppRole

-- `AzurePolicyMapper`
pub record AzurePolicyMapper : Type 0 where
  pub object_id : Text
  pub role_by_id : Dict AppRole
  pub assignments_by_id : Dict (List Assignment)
  pub user_email : Dict Text

add_role : Dict AppRole → List AppRole → Dict AppRole
add_role m [] = m
add_role m (r ∷ rs) = add_role (Dict.put r.role_id r m) rs

-- `mapAppRoles`
unfoldable pub map_app_roles : List AppRole → Dict AppRole
unfolding add_role
map_app_roles = add_role []

-- what `m[key]` gives for a map of slices
abbrev pub slice_at : Text → Dict (List Assignment) → List Assignment
slice_at key m = elim (Dict.get key m) [ none ↦ [] | some as' ↦ as' ]

unfoldable group_assignments : Dict (List Assignment) → List Assignment → Dict (List Assignment)
group_assignments m [] = m
group_assignments m (a ∷ as') =
    group_assignments (Dict.put a.app_role_id (slice_at a.app_role_id m ++ (a ∷ [])) m) as'

-- `mapAppRoleAssignments`
unfoldable pub map_app_role_assignments : List Assignment → Dict (List Assignment)
unfolding group_assignments
map_app_role_assignments = group_assignments []

-- `NewAzurePolicyMapper`
unfoldable pub new_azure_policy_mapper :
    List ServicePrincipal → List Assignment → Dict Text → AzurePolicyMapper
unfolding map_app_roles map_app_role_assignments
new_azure_policy_mapper [] as' emails = record {
  object_id = [];
  role_by_id = [];
  assignments_by_id = [];
  user_email = [];
}
new_azure_policy_mapper (s ∷ ss) as' emails = record {
  object_id = s.name;
  role_by_id = map_app_roles s.app_roles;
  assignments_by_id = map_app_role_assignments as';
  user_email = emails;
}

-- the member of an assignment, if its user has an email that is not empty
unfoldable pub member_of : Dict Text → Assignment → List Text
member_of emails a = elim (Dict.get a.principal_id emails) [
  | none ↦ []
  | some email ↦ if is_empty email then [] else (codes "user:" ++ email) ∷ []
]

unfoldable pub members_of : Dict Text → List Assignment → List Text
unfolding member_of
members_of emails [] = []
members_of emails (a ∷ as') = member_of emails a ++ members_of emails as'

-- `print` gives the text of a list of member types, since the values of `SourceData` are texts.
module _ (print : List Text → Text) where
  -- `appRoleAssignmentToIDQL`
  unfoldable pub app_role_assignment_to_idql :
      AzurePolicyMapper → List Assignment → AppRole → PolicyInfo
  unfolding members_of
  app_role_assignment_to_idql m as' role = record {
    meta = record no_meta {
      version = codes "0.7";
      policy_id = some role.role_id;
      description = role.description;
      pap_id = some m.object_id;
      provider_type = codes "azure";
      source_data =
          (codes "enabled", if role.is_enabled then codes "true" else codes "false")
          ∷ (codes "membertypes", print role.allowed_member_types)
          ∷ [];
    };
    subjects = some (members_of m.user_email as');
    actions = some (role.value ∷ []);
    object = m.object_id;
    condition = none;
    scope = none;
  }

  unfoldable roles_to_idql : AzurePolicyMapper → Dict AppRole → List PolicyInfo
  unfolding app_role_assignment_to_idql
  roles_to_idql m [] = []
  roles_to_idql m ((k, role) ∷ roles) =
      app_role_assignment_to_idql m (slice_at k m.assignments_by_id) role ∷ roles_to_idql m roles

  -- `ToIDQL`
  unfoldable pub to_idql : AzurePolicyMapper → List PolicyInfo
  unfolding roles_to_idql
  to_idql m = roles_to_idql m m.role_by_id
