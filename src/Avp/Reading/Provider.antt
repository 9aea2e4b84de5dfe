-- ===== src/Avp/Reading/Provider.antt =====
-- Every policy that is read from Amazon Verified Permissions is marked as one of the provider.
use mathlib.Core.Path.{subst}
use policy_conditions.Base.{true, ◌≡◌, Option, none, some, List, [], ◌∷◌, ◌++◌}
use policy_conditions.Base.Text.{Text, codes, text_eq, text_eq_refl}
use policy_conditions.Base.Except.{Except, raise, done}
use policy_conditions.Types.Platform.{Platform}
use policy_conditions.Policy.Info.{PolicyInfo, MetaInfo, with_etag}
use policy_conditions.Cedar.Policies.{CedarPolicy, Annotated, map_cedar_policy_bytes}
use policy_conditions.Avp.{
  static, template_linked, other_type, PolicyType, PolicyItem, PolicyOutput, TemplateOutput, Client,
}
use policy_conditions.Avp.Reading.{
  map_avp_meta, map_avp_template, first_policy, described, as_entities, read_policy, static_meta,
  map_avp_policy_to_hexa, map_items, get_policy_info,
}

abbrev pub IsAvp : MetaInfo → Type 0
IsAvp m = text_eq m.provider_type (codes "avp") ≡ true

abbrev pub AreAvp : List PolicyInfo → Type 0
AreAvp [] = Unit
AreAvp (p ∷ ps) = IsAvp p.meta × AreAvp ps

AreAvp-append : (ps qs : List PolicyInfo) → AreAvp ps → AreAvp qs → AreAvp (ps ++ qs)
AreAvp-append [] qs h k = k
AreAvp-append (p ∷ ps) qs (h, hs) k = (h, AreAvp-append ps qs hs k)

abbrev OwnMeta : Option MetaInfo → Type 0
OwnMeta none = Unit
OwnMeta (some m) = IsAvp m

described-IsAvp : (d : Option Text) (m : MetaInfo) → IsAvp m → IsAvp (described d m)
described-IsAvp none m h = h
described-IsAvp (some d) m h = h

module _ (P : Platform) (generate : Text → Text) (unquote : Text → Option Text) (S E : Type 0)
    (parse : Text → Text → Except E (List CedarPolicy)) where
  -- the policies of a result
  abbrev Own : Option (Except E (List PolicyInfo)) → Type 0
  Own none = Unit
  Own (some (raise e)) = Unit
  Own (some (done ps)) = AreAvp ps

  mapped-Own :
      (meta : Option MetaInfo)
      → OwnMeta meta
      → (r : Option (Except E (List Annotated × Text)))
      → Own (elim r [
        | none ↦ none
        | some (raise e) ↦ some (raise e)
        | some (done (ps, app)) ↦ elim (first_policy ps) [
          | none ↦ none
          | some p ↦ elim meta [
            | none ↦ none
            | some m ↦ some (done (with_etag generate (record p { meta = m }) ∷ []))
          ]
        ]
      ])
  unfolding with_etag
  mapped-Own meta h none = tt
  mapped-Own meta h (some (raise e)) = tt
  mapped-Own meta h (some (done ([], app))) = tt
  mapped-Own none h (some (done ((p, found) ∷ ps, app))) = tt
  mapped-Own (some m) h (some (done ((p, found) ∷ ps, app))) = (h, tt)

  read_policy-Own :
      (location statement : Text) (meta : Option MetaInfo)
      → OwnMeta meta
      → Own (read_policy P generate unquote S E parse location statement meta)
  unfolding read_policy
  read_policy-Own location statement meta h =
      mapped-Own meta h (map_cedar_policy_bytes P unquote parse location statement)

  static-Own :
      (location : Text) (item : PolicyItem) (r : Except E PolicyOutput)
      → Own (elim r [
        | raise e ↦ some (raise e)
        | done output ↦
            read_policy P generate unquote S E parse location output.statement
              (static_meta P generate unquote S E parse item output.description)
      ])
  static-Own location item (raise e) = tt
  static-Own location item (done output) =
      read_policy-Own location output.statement _ (static_meta-Own item output.description)
    where
      static_meta-Own :
          (item : PolicyItem) (d : Option Text)
          → OwnMeta (static_meta P generate unquote S E parse item d)
      static_meta-Own item none = tt
      static_meta-Own item (some d) = unfold map_avp_meta in text_eq_refl (codes "avp")

  template-Own :
      (location : Text) (item : PolicyItem) (r : Except E TemplateOutput)
      → Own (elim r [
        | raise e ↦ some (raise e)
        | done output ↦
            read_policy P generate unquote S E parse location
              (as_entities output.statement)
              (some (described output.description (map_avp_template output item)))
      ])
  template-Own location item (raise e) = tt
  template-Own location item (done output) =
      read_policy-Own location (as_entities output.statement) _ (
        described-IsAvp output.description (map_avp_template output item)
          (unfold map_avp_template in text_eq_refl (codes "avp")))

  item-Own :
      (client : Client S E) (location : Text) (s : S) (t : PolicyType) (item : PolicyItem)
      → Own (
          map_avp_policy_to_hexa P generate unquote S E parse client location s
            (record item { type = t }))
  unfolding map_avp_policy_to_hexa
  item-Own client location s static item =
      static-Own location (record item { type = static }) (client.get_policy s item.policy_id)
  item-Own client location s template_linked item =
      template-Own location (record item { type = template_linked })
        (client.get_template_policy s item.template_id)
  item-Own client location s other_type item = tt

  joined-Own :
      (r rest : Option (Except E (List PolicyInfo)))
      → Own r
      → Own rest
      → Own (elim r [
        | none ↦ none
        | some (raise e) ↦ some (raise e)
        | some (done ps) ↦ elim rest [
          | none ↦ none
          | some (raise e) ↦ some (raise e)
          | some (done qs) ↦ some (done (ps ++ qs))
        ]
      ])
  joined-Own none rest h k = tt
  joined-Own (some (raise e)) rest h k = tt
  joined-Own (some (done ps)) none h k = tt
  joined-Own (some (done ps)) (some (raise e)) h k = tt
  joined-Own (some (done ps)) (some (done qs)) h k = AreAvp-append ps qs h k

  items-Own :
      (client : Client S E) (location : Text) (s : S) (items : List PolicyItem)
      → Own (map_items P generate unquote S E parse client location s items)
  unfolding map_items
  items-Own client location s [] = tt
  items-Own client location s (item ∷ items) =
      joined-Own (map_avp_policy_to_hexa P generate unquote S E parse client location s item)
        (map_items P generate unquote S E parse client location s items)
        (item-Own client location s item.type item) (items-Own client location s items)

  listed-Own :
      (client : Client S E) (location : Text) (s : S) (r : Except E (List PolicyItem))
      → Own (elim r [
        | raise e ↦ some (raise e)
        | done items ↦ map_items P generate unquote S E parse client location s items
      ])
  listed-Own client location s (raise e) = tt
  listed-Own client location s (done items) = items-Own client location s items

  pub get_policy_info-AreAvp :
      (client : Client S E) (location : Text) (s : S) (ps : List PolicyInfo)
      → get_policy_info P generate unquote S E parse (done client) location s ≡ some (done ps)
      → AreAvp ps
  unfolding get_policy_info
  get_policy_info-AreAvp client location s ps h =
      subst Own h (listed-Own client location s (client.list_policies s))
