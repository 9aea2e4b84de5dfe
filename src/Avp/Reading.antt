-- ===== src/Avp/Reading.antt =====
-- providers/aws/avpProvider/avp_provider.go: the policies of a store, as IDQL.
pub mod Provider
use policy_conditions.Base.{ℕ, Bool, Option, none, some, List, [], ◌∷◌, ◌++◌}
use policy_conditions.Base.Text.{Text, codes}
use policy_conditions.Base.Except.{Except, raise, done}
use policy_conditions.Types.Platform.{Platform}
use policy_conditions.Policy.Info.{PolicyInfo, MetaInfo, with_etag}
use policy_conditions.Cedar.Policies.{CedarPolicy, Annotated, map_cedar_policy_bytes}
use policy_conditions.Avp.{
  static, template_linked, other_type, PolicyItem, PolicyOutput, TemplateOutput, Client, replaced,
}

-- `MapAvpMeta`
unfoldable pub map_avp_meta : PolicyItem → MetaInfo
map_avp_meta item = record {
  version = codes "0.7";
  source_data =
      (codes "principal", item.principal)
      ∷ (codes "resource", item.resource)
      ∷ (codes "policyType", codes "STATIC")
      ∷ [];
  description = [];
  created = item.created;
  modified = item.modified;
  etag = [];
  policy_id = some item.policy_id;
  pap_id = item.store_id;
  provider_type = codes "avp";
}

-- `MapAvpTemplate`, and what is added of the item
unfoldable pub map_avp_template : TemplateOutput → PolicyItem → MetaInfo
map_avp_template output item = record {
  version = codes "0.7";
  source_data =
      (codes "policyType", codes "TEMPLATE_LINKED")
      ∷ (codes "resource", item.resource)
      ∷ (codes "principal", item.principal)
      ∷ [];
  description = [];
  created = output.created;
  modified = output.modified;
  etag = [];
  policy_id = some output.template_id;
  pap_id = output.store_id;
  provider_type = codes "avp";
}

-- the first policy, which panics where there is none
abbrev first_policy : List Annotated → Option PolicyInfo
first_policy [] = none
first_policy ((p, found) ∷ ps) = some p

abbrev described : Option Text → MetaInfo → MetaInfo
described none m = m
described (some d) m = record m { description = d }

-- `?principal` and `?resource` stand as entities in the text that is parsed.
abbrev as_entities : Text → Text
as_entities t =
    replaced (codes "?resource") (codes "Template::\"resource\"")
      (replaced (codes "?principal") (codes "Template::\"principal\"") t)

-- `generate` stands for `etag.Generate(bytes, false)`, `unquote` for `strconv.Unquote`, and `parse` for
-- `cedar.NewPolicyListFromBytes`.
module _ (P : Platform) (generate : Text → Text) (unquote : Text → Option Text) (S E : Type 0)
    (parse : Text → Text → Except E (List CedarPolicy)) where
  -- A mapped policy with other information about it; none for a panic
  unfoldable read_policy : Text → Text → Option MetaInfo → Option (Except E (List PolicyInfo))
  unfolding map_cedar_policy_bytes with_etag
  read_policy location statement meta =
      elim (map_cedar_policy_bytes P unquote parse location statement) [
        | none ↦ none
        | some (raise e) ↦ some (raise e)
        | some (done (ps, app)) ↦ elim (first_policy ps) [
          | none ↦ none
          | some p ↦ elim meta [
            | none ↦ none
            | some m ↦ some (done (with_etag generate (record p { meta = m }) ∷ []))
          ]
        ]
      ]

  -- A policy without a description panics.
  abbrev static_meta : PolicyItem → Option Text → Option MetaInfo
  static_meta item none = none
  static_meta item (some d) = some (record (map_avp_meta item) { description = d })

  -- `mapAvpPolicyToHexa`, with the location of the application
  unfoldable pub map_avp_policy_to_hexa :
      Client S E → Text → S → PolicyItem → Option (Except E (List PolicyInfo))
  unfolding read_policy map_avp_meta map_avp_template replaced
  map_avp_policy_to_hexa client location s item = elim item.type [
    | static ↦ elim (client.get_policy s item.policy_id) [
      | raise e ↦ some (raise e)
      | done output ↦ read_policy location output.statement (static_meta item output.description)
    ]
    | template_linked ↦ elim (client.get_template_policy s item.template_id) [
      | raise e ↦ some (raise e)
      | done output ↦
          read_policy location (as_entities output.statement)
            (some (described output.description (map_avp_template output item)))
    ]
    | other_type ↦ some (done [])
  ]

  -- the loop of `GetPolicyInfo`
  unfoldable pub map_items :
      Client S E → Text → S → List PolicyItem → Option (Except E (List PolicyInfo))
  unfolding map_avp_policy_to_hexa
  map_items client location s [] = some (done [])
  map_items client location s (item ∷ items) =
      let rest = map_items client location s items in
      elim (map_avp_policy_to_hexa client location s item) [
        | none ↦ none
        | some (raise e) ↦ some (raise e)
        | some (done ps) ↦ elim rest [
          | none ↦ none
          | some (raise e) ↦ some (raise e)
          | some (done qs) ↦ some (done (ps ++ qs))
        ]
      ]

  -- `GetPolicyInfo`
  unfoldable pub get_policy_info :
      Except E (Client S E) → Text → S → Option (Except E (List PolicyInfo))
  unfolding map_items
  get_policy_info (raise e) location s = some (raise e)
  get_policy_info (done client) location s = elim (client.list_policies s) [
    | raise e ↦ some (raise e)
    | done items ↦ map_items client location s items
  ]
