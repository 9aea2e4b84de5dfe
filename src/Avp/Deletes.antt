-- ===== src/Avp/Deletes.antt =====
-- Which existing policies `Reconcile` reports as deleted.
use policy_conditions.Base.{Bool, true, not, ◌&&◌, ◌≡◌, Option, none, some, List, [], if◌then◌else◌}
use policy_conditions.Base.Lists.{all}
use policy_conditions.Base.Text.{Text, codes, text_eq}
use policy_conditions.Base.Dict
use policy_conditions.Base.Dict.{Dict}
use policy_conditions.Types.Platform.{Platform}
use policy_conditions.Policy.Info.{PolicyInfo}
use policy_conditions.Policy.Reconcile.{PolicyDif}
use policy_conditions.Policy.Reconcile.Deletes.{has_id, is_delete, AreOf}
use policy_conditions.Avp.Reconcile.{Round}

-- a policy of the provider with this identifier
abbrev pub has_avp_id : Text → PolicyInfo → Bool
has_avp_id k p = text_eq p.meta.provider_type (codes "avp") && has_id k p

abbrev no_deletes : List PolicyDif → Bool
no_deletes ds = all (λ d. not (is_delete d)) ds

-- A round for these policies takes the identifiers away that are gone. It deletes nothing.
pub record Keeps (ps : List PolicyInfo) (gone : Text → Bool) (m : Dict PolicyInfo)
    (ds : List PolicyDif) (m' : Dict PolicyInfo) : Type 0 where
  pub are_of : AreOf ds ps
  pub no_delete : no_deletes ds ≡ true
  pub unique : Dict.IsUnique m → Dict.IsUnique m'
  pub gets : (k : Text) → Dict.get k m' ≡ (if gone k then none else Dict.get k m)

abbrev Leaves : List PolicyInfo → (Text → Bool) → Dict PolicyInfo → Option Round → Type 0
Leaves ps gone m none = Unit
Leaves ps gone m (some (ds, m')) = Keeps ps gone m ds m'

abbrev or_nothing : Option (List PolicyDif) → List PolicyDif
or_nothing none = []
or_nothing (some ds) = ds
