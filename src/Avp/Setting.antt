-- ===== src/Avp/Setting.antt =====
-- providers/aws/avpProvider/avp_provider.go: `SetPolicyInfo`, which changes the remote store call by call.
use policy_conditions.Base.{ℕ, true, ◌||◌, Option, none, some, List, [], ◌∷◌, ◌++◌, if◌then◌else◌}
use policy_conditions.Base.Lists.{is_empty}
use policy_conditions.Base.Text.{Text, codes, text_eq}
use policy_conditions.Base.Dict
use policy_conditions.Base.Except.{Except, raise, done}
use policy_conditions.Types.Platform.{Platform}
use policy_conditions.Conditions.Walk.{AttributeMap}
use policy_conditions.Policy.Info.{PolicyInfo, MetaInfo, calculate_etag}
use policy_conditions.Policy.Equality.{Difference, action, subject, object, condition}
use policy_conditions.Policy.Compare.{contains}
use policy_conditions.Policy.Reconcile.{new, matched, update, delete, ignore, PolicyDif}
use policy_conditions.Gcp.Cel.{MapError}
use policy_conditions.Cedar.Policies.{Annotations, CedarPolicy, map_hexa_policies}
use policy_conditions.Avp.{CreateInput, UpdateInput, DeleteInput, Client, replaced}
use policy_conditions.Avp.Reading.{get_policy_info}
use policy_conditions.Avp.Reconcile.{is_template, reconcile_avp}

-- How a call ends: with a panic, with an error that ends the whole, or so that the next one follows
pub data Step (S : Type 0) : Type 0 where
  panics : Step S
  stop next : S → Step S

abbrev pub and_then : {S : Type 0} → Step S → (S → Step S) → Step S
and_then panics k = panics
and_then (stop s) k = stop s
and_then (next s) k = k s

-- the status that is returned, with the state that is left: an error comes with each status but 200
abbrev pub ended : {S : Type 0} → Step S → Option (S × ℕ)
ended panics = none
ended (stop s) = some (s, 400)
ended (next s) = some (s, 200)

-- `prepareDelete`
unfoldable pub prepare_delete : MetaInfo → Option DeleteInput
prepare_delete m = elim (Dict.get (codes "policyType") m.source_data) [
  | none ↦ some (record { policy_id = m.policy_id; store_id = m.pap_id })
  | some t ↦
      if text_eq t (codes "TEMPLATE_LINKED")
      then none
      else some (record { policy_id = m.policy_id; store_id = m.pap_id })
]

abbrev pub step_of : {S E : Type 0} → S × Option E → Step S
step_of (s, none) = next s
step_of (s, some e) = stop s

abbrev pub created : {S E : Type 0} → S × Except E Text → Step S
created (s, raise e) = stop s
created (s, done i) = next s

module _ (S E : Type 0) (client : Client S E) where
  unfoldable pub apply_delete : S → MetaInfo → Step S
  unfolding prepare_delete
  apply_delete s m = step_of (client.delete_policy s (prepare_delete m))

  -- the case `ChangeTypeDelete`
  unfoldable pub delete_each : S → List PolicyInfo → Step S
  unfolding apply_delete
  delete_each s [] = next s
  delete_each s (p ∷ ps) = and_then (apply_delete s p.meta) (λ s'. delete_each s' ps)

-- `generate` stands for `etag.Generate(bytes, false)`, `unquote` for `strconv.Unquote`, `decimal` for
-- `types.ParseDecimal` of cedar-go, and `annotations_of` for what `SourceData` holds under `annotations`.
module _ (P : Platform) (generate : Text → Text) (unquote decimal : Text → Option Text)
    (n : AttributeMap) (annotations_of : MetaInfo → Annotations) where
  -- `convertCedarStatement`
  unfoldable convert_cedar_statement : PolicyInfo → Option (Except MapError Text)
  unfolding map_hexa_policies replaced
  convert_cedar_statement p =
      elim (map_hexa_policies P unquote decimal n ((p, annotations_of p.meta) ∷ [])) [
        | none ↦ none
        | some (raise e) ↦ some (raise e)
        | some (done t) ↦ some (
            done (
              replaced (codes "Template::\"resource\"") (codes "?resource")
                (replaced (codes "Template::\"principal\"") (codes "?principal") t)))
      ]

  abbrev description_of : PolicyInfo → Text
  description_of p =
      if is_empty p.meta.description
      then codes "Mapped from IDQL (etag: " ++ (calculate_etag generate p ++ codes ")")
      else p.meta.description

  -- `prepareCreatePolicy`
  unfoldable pub prepare_create_policy : Text → PolicyInfo → Option (Except MapError CreateInput)
  unfolding convert_cedar_statement calculate_etag
  prepare_create_policy location p = elim (convert_cedar_statement p) [
    | none ↦ none
    | some (raise e) ↦ some (raise e)
    | some (done t) ↦
        some (done (record { statement = t; description = description_of p; store_id = location }))
  ]

  -- `preparePolicyUpdate`
  unfoldable pub prepare_policy_update :
      PolicyInfo → MetaInfo → Option (Except MapError UpdateInput)
  unfolding convert_cedar_statement
  prepare_policy_update p m = elim (convert_cedar_statement p) [
    | none ↦ none
    | some (raise e) ↦ some (raise e)
    | some (done t) ↦ some (
        done (record {
          statement = t;
          description = p.meta.description;
          policy_id = m.policy_id;
          store_id = m.pap_id;
        }))
  ]

module _ (P : Platform) (generate : Text → Text) (unquote decimal : Text → Option Text)
    (n : AttributeMap) (annotations_of : MetaInfo → Annotations) (S E : Type 0)
    (client : Client S E) (location : Text) where
  -- a new policy
  unfoldable pub apply_create : S → PolicyInfo → Step S
  unfolding prepare_create_policy
  apply_create s p =
      elim (prepare_create_policy P generate unquote decimal n annotations_of location p) [
        | none ↦ panics
        | some (raise e) ↦ stop s
        | some (done input) ↦ created (client.create_policy s input)
      ]

  unfoldable change_policy : S → PolicyInfo → Step S
  unfolding prepare_policy_update
  change_policy s p =
      elim (prepare_policy_update P generate unquote decimal n annotations_of p p.meta) [
        | none ↦ panics
        | some (raise e) ↦ stop s
        | some (done input) ↦ step_of (client.update_policy s input)
      ]

  -- the case `ChangeTypeUpdate`: with another subject or object the policy is deleted and made again
  unfoldable pub apply_update : S → List Difference → PolicyInfo → Step S
  unfolding apply_delete apply_create change_policy
  apply_update s ds p =
      if text_eq p.meta.provider_type (codes "avp")
      then elim p.meta.policy_id [
        | none ↦ panics
        | some i ↦
            if contains subject ds || contains object ds
            then and_then (apply_delete S E client s p.meta) (λ s'. apply_create s' p)
            else if contains action ds || contains condition ds
            then change_policy s p
            else next s
      ]
      else next s

  abbrev on_compared : (PolicyInfo → Step S) → Option PolicyInfo → Step S
  on_compared k none = panics
  on_compared k (some p) = k p

  -- one round of the loop
  unfoldable pub apply_dif : S → PolicyDif → Step S
  unfolding apply_create apply_update delete_each is_template
  apply_dif s d = elim d.change [
    | new ↦ on_compared (λ p. if is_template p then next s else apply_create s p) d.compared
    | delete ↦ delete_each S E client s d.exist
    | update ↦ on_compared (apply_update s d.dif_types) d.compared
    | matched ↦ next s
    | ignore ↦ next s
  ]

  -- the loop
  unfoldable pub apply_difs : S → List PolicyDif → Step S
  unfolding apply_dif
  apply_difs s [] = next s
  apply_difs s (d ∷ ds) = and_then (apply_dif s d) (λ s'. apply_difs s' ds)

  -- `SetPolicyInfo` behind the reading of the existing policies; none where it panics
  unfoldable pub set_from : S → List PolicyInfo → List PolicyInfo → Option (S × ℕ)
  unfolding reconcile_avp apply_difs
  set_from s existing policies = elim (reconcile_avp P generate existing policies true) [
    | none ↦ none
    | some ds ↦ ended (apply_difs s ds)
  ]

module _ (P : Platform) (generate : Text → Text) (unquote decimal : Text → Option Text)
    (n : AttributeMap) (annotations_of : MetaInfo → Annotations) (S E : Type 0)
    (parse : Text → Text → Except E (List CedarPolicy)) where
  -- `SetPolicyInfo`
  unfoldable pub set_policy_info :
      Except E (Client S E) → Text → S → List PolicyInfo → Option (S × ℕ)
  unfolding get_policy_info set_from
  set_policy_info (raise e) location s policies = some (s, 500)
  set_policy_info (done client) location s policies =
      elim (get_policy_info P generate unquote S E parse (done client) location s) [
        | none ↦ none
        | some (raise e) ↦ some (s, 500)
        | some (done existing) ↦
            set_from P generate unquote decimal n annotations_of S E client location s existing
              policies
      ]
