-- ===== src/Tests/AzureRuns.antt =====
-- The properties of the Azure mapper at concrete roles and assignments.
use mathlib.Core.List.{Perm}
use policy_conditions.Base.{true, refl, List, [], ◌∷◌, map}
use policy_conditions.Base.Text.{Text, codes, text_eq}
use policy_conditions.Base.Dict.{Dict}
use policy_conditions.Azure.{
  AppRole, Assignment, ServicePrincipal, new_azure_policy_mapper, to_idql,
}
use policy_conditions.Azure.Assigned.{AreDistinct, policy_of, to_idql-policies_of}

abbrev reader : AppRole
reader = record {
  role_id = codes "r1";
  value = codes "read";
  description = [];
  is_enabled = true;
  allowed_member_types = codes "User" ∷ [];
}

abbrev assigned : List Assignment
assigned =
    record { app_role_id = codes "r1"; principal_id = codes "ann" }
    ∷ record { app_role_id = codes "r2"; principal_id = codes "bob" }
    ∷ record { app_role_id = codes "r1"; principal_id = codes "bob" }
    ∷ []

abbrev emails_of : Dict Text
emails_of = (codes "ann", codes "ann@x.org") ∷ (codes "bob", codes "bob@x.org") ∷ []

abbrev no_types : List Text → Text
no_types ts = []

abbrev writer : AppRole
writer = record reader { role_id = codes "r2"; value = codes "write" }

abbrev other_app : ServicePrincipal
other_app = record { name = codes "app"; app_roles = reader ∷ writer ∷ [] }

other_app-AreDistinct : AreDistinct other_app.app_roles
unfolding text_eq
other_app-AreDistinct = ((refl, tt), (tt, tt))

to_idql-policies_of_example :
    Perm
      (to_idql no_types (new_azure_policy_mapper (other_app ∷ []) assigned emails_of))
      (map (policy_of no_types (codes "app") emails_of assigned) (reader ∷ writer ∷ []))
to_idql-policies_of_example =
    to_idql-policies_of no_types other_app [] assigned emails_of other_app-AreDistinct
