-- ===== src/Tests/RarRuns.antt =====
-- The properties of roles at concrete roles.
use policy_conditions.Base.{true, some, none, false, not, ◌&&◌, ◌||◌, ◌≡◌, refl, List, [], ◌∷◌}
use policy_conditions.Base.Text.{Text, codes, trim_space}
use policy_conditions.Rar.Slices.{is_blank}
use policy_conditions.Base.Lists.{any}
use policy_conditions.Policy.Info.{PolicyInfo, no_meta}
use policy_conditions.Rar.Slices.{sort_compact}
use policy_conditions.Rar.Slices.Order.{ascending, sort_compact-ascending}
use policy_conditions.Rar.Transform.{merge_all}
use policy_conditions.Rar.Transform.Merge.{members_at, gives, merge_all-members}
use policy_conditions.Base.Lists.{is_empty}
use policy_conditions.Base.Text.{trim_space, cut_prefix}
use policy_conditions.Rar.Roles.{get_http_method}
use policy_conditions.Rar.Slices.Members.{has}
use policy_conditions.Rar.Transform.{find_roles_to_update}
use policy_conditions.Rar.Transform.Update.{updated, find_roles_to_update-roles}

abbrev old_roles : List Text
old_roles = codes "admin" ∷ codes "reader" ∷ []

abbrev new_roles : List Text
new_roles = codes "reader" ∷ codes " " ∷ codes "writer" ∷ codes "reader" ∷ []

admin-filled : is_blank (codes "admin") ≡ false
unfolding is_blank trim_space
admin-filled = refl

find_roles_to_update-roles_example :
    has (codes "admin") (updated old_roles (find_roles_to_update old_roles new_roles))
    ≡ has (codes "admin") new_roles
find_roles_to_update-roles_example =
    find_roles_to_update-roles (codes "admin") old_roles new_roles admin-filled

sort_compact-ascending_example : ascending (sort_compact new_roles) ≡ true
sort_compact-ascending_example = sort_compact-ascending new_roles

abbrev policy_for : List Text → PolicyInfo
policy_for roles = record {
  meta = no_meta;
  subjects = some roles;
  actions = some (codes "http:GET" ∷ []);
  object = codes "/a";
  condition = none;
  scope = none;
}

merge_all-members_example :
    has (codes "admin") (
      members_at
        (codes "http:GET/a")
        (merge_all [] (policy_for old_roles ∷ policy_for new_roles ∷ [])))
    ≡ (has (codes "admin") (members_at (codes "http:GET/a") [])
        || any
            (gives (codes "admin") (codes "http:GET/a"))
            (policy_for old_roles ∷ policy_for new_roles ∷ []))
merge_all-members_example =
    merge_all-members (codes "admin") (codes "http:GET/a") []
      (policy_for old_roles ∷ policy_for new_roles ∷ []) admin-filled

resource-filled : is_blank (codes "/a/b") ≡ false
unfolding is_blank trim_space
resource-filled = refl

action-filled : is_blank (codes "http:get") ≡ false
unfolding is_blank trim_space
action-filled = refl

action-method : is_empty (get_http_method (codes "http:get") (codes "http:")) ≡ false
unfolding get_http_method policy_conditions.Base.Text.text_eq policy_conditions.Base.Text.to_lower
action-method = refl

resource-trimmed : trim_space (codes "/a/b") ≡ codes "/a/b"
unfolding trim_space
resource-trimmed = refl

path-trimmed :
    trim_space (cut_prefix (codes "/a/b") (codes "/")) ≡ cut_prefix (codes "/a/b") (codes "/")
unfolding trim_space cut_prefix
path-trimmed = refl
