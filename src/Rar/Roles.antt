-- ===== src/Rar/Roles.antt =====
-- models/rar/resource_action_role.go: which roles may act on a resource, and the key of such a record.
pub mod Key
use policy_conditions.Base.{◌||◌, List, [], ◌∷◌, ◌++◌, if◌then◌else◌}
use policy_conditions.Base.Lists.{is_empty}
use policy_conditions.Base.Text.{
  Text, codes, text_eq, to_lower, trim_space, cut_prefix, split, join, replace_all,
}
use policy_conditions.Rar.Slices.{is_blank}

-- `ResourceActionRoles`
pub record ResourceActionRoles : Type 0 where
  pub action : Text
  pub resource : Text
  pub roles : List Text

abbrev pub no_roles : ResourceActionRoles
no_roles = record { action = []; resource = []; roles = [] }

abbrev pub http_methods : List Text
http_methods =
    codes "GET"
    ∷ codes "HEAD"
    ∷ codes "POST"
    ∷ codes "PUT"
    ∷ codes "PATCH"
    ∷ codes "DELETE"
    ∷ codes "CONNECT"
    ∷ codes "OPTIONS"
    ∷ codes "TRACE"
    ∷ []

find_method : Text → Text → List Text → Text
find_method action prefix [] = []
find_method action prefix (m ∷ ms) =
    if text_eq (to_lower (prefix ++ m)) (to_lower action) then m else find_method action prefix ms

-- `getHttpMethod`; an empty text where no method fits
unfoldable pub get_http_method : Text → Text → Text
unfolding find_method
get_http_method action prefix = find_method action prefix http_methods

-- `SanitizeMembers`
unfoldable pub sanitize_members : List Text → List Text
sanitize_members [] = []
sanitize_members (m ∷ ms) =
    if is_blank m then sanitize_members ms else trim_space m ∷ sanitize_members ms

-- `newResourceActionRoles`
unfoldable pub new_roles : Text → Text → List Text → ResourceActionRoles
unfolding sanitize_members
new_roles resource action roles =
    if is_blank resource || is_blank action then no_roles else record {
      action = action;
      resource = b'/' ∷ trim_space (cut_prefix (trim_space resource) (codes "/"));
      roles = sanitize_members roles;
    }

-- `NewResourceActionRoles`
unfoldable pub new_resource_action_roles : Text → Text → List Text → ResourceActionRoles
unfolding new_roles
new_resource_action_roles resource http_method roles =
    if is_empty (get_http_method http_method [])
    then no_roles
    else new_roles resource http_method roles

-- `NewResourceActionUriRoles`
unfoldable pub new_resource_action_uri_roles : Text → Text → List Text → ResourceActionRoles
unfolding new_roles
new_resource_action_uri_roles resource action_uri roles =
    let method = get_http_method action_uri (codes "http:") in
    if is_empty method then no_roles else new_roles resource method roles

-- the parts of a provider's key, from the second on
from_parts : List Text → List Text → ResourceActionRoles
from_parts (action ∷ u ∷ us) roles =
    let method = get_http_method action (codes "http") in
    if is_empty method then no_roles else new_roles (join (codes "/") (u ∷ us)) method roles
from_parts _ roles = no_roles

from_key : List Text → List Text → ResourceActionRoles
unfolding from_parts
from_key (prefix ∷ parts) roles =
    if text_eq prefix (codes "resrol") then from_parts parts roles else no_roles
from_key [] roles = no_roles

-- `NewResourceActionRolesFromProviderValue`
unfoldable pub roles_from_provider_value : Text → List Text → ResourceActionRoles
unfolding from_key new_roles
roles_from_provider_value key roles = from_key (split b'-' key) roles

-- `makeRarKey`
unfoldable pub make_rar_key : Text → Text → Text → Text
make_rar_key action resource action_prefix =
    let method = get_http_method action action_prefix in
    if is_blank resource || is_blank action
    then []
    else if is_empty method
    then []
    else join (codes "-") (
        codes "resrol"
        ∷ (codes "http" ++ to_lower method)
        ∷ replace_all b'/' b'-' (cut_prefix resource (codes "/"))
        ∷ [])

-- `Name`
unfoldable pub name : ResourceActionRoles → Text
unfolding make_rar_key
name r = make_rar_key r.action r.resource []

-- `MakeRarKeyForPolicy`
unfoldable pub make_rar_key_for_policy : Text → Text → Text
unfolding make_rar_key
make_rar_key_for_policy action_uri resource = make_rar_key action_uri resource (codes "http:")
