-- ===== src/Azure/Assigned.antt =====
-- providers/azure/azureProvider/azure_policy_mapper.go: which members the policy of a role has.
use mathlib.Core.List.{Perm}
use mathlib.Core.List.Perm
use mathlib.Core.Path.{subst}
use policy_conditions.Base.{
  false, ◌≡◌, refl, ap, ap₂, sym, ◌∙◌, Option, none, some, List, [], ◌∷◌, ◌++◌, map, arith,
  append_assoc, append-nil, if◌then◌else◌,
}
use policy_conditions.Base.Lists.{keep, is_empty}
use policy_conditions.Base.Text.{Text, codes, text_eq, text_eq_iff}
use policy_conditions.Base.Dict
use policy_conditions.Base.Dict.{Dict}
use policy_conditions.Policy.Info.{PolicyInfo, no_meta}
use policy_conditions.Azure
use policy_conditions.Azure.{Assignment, AppRole, AzurePolicyMapper, ServicePrincipal}

-- the assignments of a role, in order
abbrev pub assigned_to : Text → List Assignment → List Assignment
assigned_to key = keep (λ a. text_eq a.app_role_id key)

slice_at-put :
    (k j : Text) (v : List Assignment) (m : Dict (List Assignment))
    → Azure.slice_at j (Dict.put k v m) ≡ (if text_eq k j then v else Azure.slice_at j m)
slice_at-put k j v m = ground (arith, Dict.get-put k j v m)

slice_at-group_assignments :
    (key : Text) (as' : List Assignment) (m : Dict (List Assignment))
    → Azure.slice_at key (Azure.group_assignments m as')
      ≡ Azure.slice_at key m ++ assigned_to key as'
unfolding Azure.group_assignments
slice_at-group_assignments key [] m = ground (arith, append-nil (Azure.slice_at key m))
slice_at-group_assignments key (a ∷ as') m =
    slice_at-group_assignments key as'
      (Dict.put a.app_role_id (Azure.slice_at a.app_role_id m ++ (a ∷ [])) m)
    ∙ put_then
  where
    put_then :
        Azure.slice_at key (Dict.put a.app_role_id (Azure.slice_at a.app_role_id m ++ (a ∷ [])) m)
          ++ assigned_to key as'
        ≡ Azure.slice_at key m ++ assigned_to key (a ∷ as')
    put_then =
        ap (λ x. x ++ assigned_to key as')
          (slice_at-put a.app_role_id key (Azure.slice_at a.app_role_id m ++ (a ∷ [])) m)
        ∙ ground (
          arith,
          text_eq_iff a.app_role_id key,
          append_assoc (Azure.slice_at a.app_role_id m) (a ∷ []) (assigned_to key as'),
        )

-- The assignments under the id of a role are those of the role, in their order.
pub slice_at-map_app_role_assignments :
    (key : Text) (as' : List Assignment)
    → Azure.slice_at key (Azure.map_app_role_assignments as') ≡ assigned_to key as'
unfolding Azure.map_app_role_assignments Dict.get
slice_at-map_app_role_assignments key as' = slice_at-group_assignments key as' []

-- the members of a role: the users with an email that are assigned to it, in the order of the assignments
abbrev user_of : Option Text → List Text
user_of none = []
user_of (some []) = []
user_of (some (c ∷ cs)) = (codes "user:" ++ (c ∷ cs)) ∷ []

abbrev pub users_of : Dict Text → Text → List Assignment → List Text
users_of emails key [] = []
users_of emails key (a ∷ as') =
    if text_eq a.app_role_id key
    then user_of (Dict.get a.principal_id emails) ++ users_of emails key as'
    else users_of emails key as'

member_of-user_of :
    (emails : Dict Text) (a : Assignment)
    → Azure.member_of emails a ≡ user_of (Dict.get a.principal_id emails)
unfolding Azure.member_of
member_of-user_of emails a = from (Dict.get a.principal_id emails)
  where
    from :
        (o : Option Text)
        → (elim o [
          | none ↦ []
          | some email ↦ if is_empty email then [] else (codes "user:" ++ email) ∷ []
        ])
          ≡ user_of o
    from none = refl
    from (some []) = refl
    from (some (c ∷ cs)) = refl

members_of-users_of :
    (emails : Dict Text) (key : Text) (as' : List Assignment)
    → Azure.members_of emails (assigned_to key as') ≡ users_of emails key as'
unfolding Azure.members_of
members_of-users_of emails key [] = refl
members_of-users_of emails key (a ∷ as') =
    ground (arith, member_of-user_of emails a, members_of-users_of emails key as')

abbrev by_id : List AppRole → Dict AppRole
by_id = map (λ r. (r.role_id, r))

-- Roles with distinct ids
abbrev pub IsNew : Text → List AppRole → Type 0
IsNew k [] = Unit
IsNew k (r ∷ rs) = (text_eq k r.role_id ≡ false) × IsNew k rs

abbrev pub AreDistinct : List AppRole → Type 0
AreDistinct [] = Unit
AreDistinct (r ∷ rs) = IsNew r.role_id rs × AreDistinct rs

-- A key is none of those of the map.
abbrev IsFresh : Text → Dict AppRole → Type 0
IsFresh k [] = Unit
IsFresh k ((j, r) ∷ m) = (text_eq j k ≡ false) × IsFresh k m

put-fresh :
    (k : Text) (r : AppRole) (m : Dict AppRole) → IsFresh k m → Dict.put k r m ≡ m ++ ((k, r) ∷ [])
unfolding Dict.put
put-fresh k r [] h = refl
put-fresh k r ((j, q) ∷ m) h = rw h.0 (ap (λ x. (j, q) ∷ x) (put-fresh k r m h.1))

-- The keys of a map are none of the ids.
abbrev Apart : Dict AppRole → List AppRole → Type 0
Apart m [] = Unit
Apart m (r ∷ rs) = IsFresh r.role_id m × Apart m rs

IsFresh-append :
    (k j : Text) (r : AppRole) (m : Dict AppRole)
    → IsFresh k m
    → text_eq j k ≡ false
    → IsFresh k (m ++ ((j, r) ∷ []))
IsFresh-append k j r [] h g = (g, tt)
IsFresh-append k j r ((i, q) ∷ m) h g = (h.0, IsFresh-append k j r m h.1 g)

Apart-append :
    (k : Text) (q : AppRole) (m : Dict AppRole) (rs : List AppRole)
    → Apart m rs
    → IsNew k rs
    → Apart (m ++ ((k, q) ∷ [])) rs
Apart-append k q m [] h g = tt
Apart-append k q m (r ∷ rs) h g =
    (IsFresh-append r.role_id k q m h.0 g.0, Apart-append k q m rs h.1 g.1)

add_role-by_id :
    (m : Dict AppRole) (rs : List AppRole)
    → Apart m rs
    → AreDistinct rs
    → Azure.add_role m rs ≡ m ++ by_id rs
unfolding Azure.add_role
add_role-by_id m [] h g = sym (append-nil m)
add_role-by_id m (r ∷ rs) h g =
    ap (λ x. Azure.add_role x rs) (put-fresh r.role_id r m h.0)
    ∙ add_role-by_id (m ++ ((r.role_id, r) ∷ [])) rs (Apart-append r.role_id r m rs h.1 g.0) g.1
    ∙ append_assoc m ((r.role_id, r) ∷ []) (by_id rs)

Apart-nil : (rs : List AppRole) → Apart [] rs
Apart-nil [] = tt
Apart-nil (r ∷ rs) = (tt, Apart-nil rs)

module _ (print : List Text → Text) (name : Text) (emails : Dict Text) (as' : List Assignment) where
  -- the policy of a role of the application with a name
  abbrev pub policy_of : AppRole → PolicyInfo
  policy_of role = record {
    meta = record no_meta {
      version = codes "0.7";
      policy_id = some role.role_id;
      description = role.description;
      pap_id = some name;
      provider_type = codes "azure";
      source_data =
          (codes "enabled", if role.is_enabled then codes "true" else codes "false")
          ∷ (codes "membertypes", print role.allowed_member_types)
          ∷ [];
    };
    subjects = some (users_of emails role.role_id as');
    actions = some (role.value ∷ []);
    object = name;
    condition = none;
    scope = none;
  }

  role-policy_of :
      (m : AzurePolicyMapper) (role : AppRole)
      → m.object_id ≡ name
      → m.user_email ≡ emails
      → m.assignments_by_id ≡ Azure.map_app_role_assignments as'
      → Azure.app_role_assignment_to_idql print m
          (Azure.slice_at role.role_id m.assignments_by_id)
          role
        ≡ policy_of role
  unfolding Azure.app_role_assignment_to_idql
  role-policy_of m role f g h =
      rw
        (
          f,
          g,
          h,
          slice_at-map_app_role_assignments role.role_id as',
          members_of-users_of emails role.role_id as',
        )
        refl

  roles_to_idql-policy_of :
      (m : AzurePolicyMapper) (rs : List AppRole)
      → m.object_id ≡ name
      → m.user_email ≡ emails
      → m.assignments_by_id ≡ Azure.map_app_role_assignments as'
      → Azure.roles_to_idql print m (by_id rs) ≡ map policy_of rs
  unfolding Azure.roles_to_idql
  roles_to_idql-policy_of m [] f g h = refl
  roles_to_idql-policy_of m (r ∷ rs) f g h =
      ap₂ (λ x xs. x ∷ xs) (role-policy_of m r f g h) (roles_to_idql-policy_of m rs f g h)

-- Where the roles of the application have distinct ids, ToIDQL makes one policy of each role, in an order
-- of the map's choice. It has the role's id, description and value, and its members are the users with
-- an email that are assigned to the id, in the order of the assignments.
pub to_idql-policies_of :
    (print : List Text → Text) (s : ServicePrincipal) (ss : List ServicePrincipal)
    (as' : List Assignment) (emails : Dict Text)
    → AreDistinct s.app_roles
    → Perm
        (Azure.to_idql print (Azure.new_azure_policy_mapper (s ∷ ss) as' emails))
        (map (policy_of print s.name emails as') s.app_roles)
unfolding Azure.to_idql Azure.new_azure_policy_mapper Azure.map_app_roles
to_idql-policies_of print s ss as' emails h = subst (Perm _) made (Perm.refl _)
  where
    mapper : AzurePolicyMapper
    mapper = Azure.new_azure_policy_mapper (s ∷ ss) as' emails

    made : Azure.to_idql print mapper ≡ map (policy_of print s.name emails as') s.app_roles
    made =
        ap (Azure.roles_to_idql print mapper)
          (add_role-by_id [] s.app_roles (Apart-nil s.app_roles) h)
        ∙ roles_to_idql-policy_of print s.name emails as' mapper s.app_roles refl refl refl
