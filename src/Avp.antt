-- ===== src/Avp.antt =====
-- providers/aws/avpProvider/avp_provider.go: policies of Amazon Verified Permissions. The fields of AWS that are
-- always given are no options here.
pub mod Reading
pub mod Reconcile
pub mod Setting
pub mod Deletes
pub mod Unchanged
use policy_conditions.Base.{
  ℕ, zero, suc, ◌-◌, Bool, true, false, Option, none, some, List, [], ◌∷◌, ◌++◌, if◌then◌else◌,
}
use policy_conditions.Base.Lists.{length}
use policy_conditions.Base.Text.{Text, codes, has_prefix}
use policy_conditions.Base.Except.{Except}

-- `PolicyItem`, with the texts of its identifiers
pub data PolicyType : Type 0 where
  static template_linked other_type : PolicyType

pub record PolicyItem : Type 0 where
  pub policy_id : Text
  pub store_id : Option Text
  pub type : PolicyType
  pub template_id : Text
  pub principal : Text
  pub resource : Text
  pub created : Option ℕ
  pub modified : Option ℕ

-- what the mapper reads of `GetPolicyOutput` and of `GetPolicyTemplateOutput`
pub record PolicyOutput : Type 0 where
  pub statement : Text
  pub description : Option Text

pub record TemplateOutput : Type 0 where
  pub template_id : Text
  pub store_id : Option Text
  pub statement : Text
  pub description : Option Text
  pub created : Option ℕ
  pub modified : Option ℕ

pub record CreateInput : Type 0 where
  pub statement : Text
  pub description : Text
  pub store_id : Text

pub record UpdateInput : Type 0 where
  pub statement : Text
  pub description : Text
  pub policy_id : Option Text
  pub store_id : Option Text

pub record DeleteInput : Type 0 where
  pub policy_id : Option Text
  pub store_id : Option Text

-- `AvpClient`, over the state of the remote store. A reading call does not change it; a changing one leaves a
-- state even with an error. `none` is the nil input.
pub record Client (S E : Type 0) : Type 0 where
  pub list_policies : S → Except E (List PolicyItem)
  pub get_policy : S → Text → Except E PolicyOutput
  pub get_template_policy : S → Text → Except E TemplateOutput
  pub create_policy : S → CreateInput → S × Except E Text
  pub update_policy : S → UpdateInput → S × Option E
  pub delete_policy : S → Option DeleteInput → S × Option E

-- The loop of `strings.Replace(s, old, new, -1)`; the count is of the bytes that were replaced already.
replaced_from : Text → Text → ℕ → Text → Text
replaced_from old new skip [] = []
replaced_from old new zero (c ∷ cs) =
    let cut = replaced_from old new (length old - 1) cs in
    let kept = replaced_from old new zero cs in
    if has_prefix (c ∷ cs) old then new ++ cut else c ∷ kept
replaced_from old new (suc k) (c ∷ cs) = replaced_from old new k cs

-- `strings.Replace` of every occurrence of a text that is not empty
unfoldable pub replaced : Text → Text → Text → Text
unfolding replaced_from
replaced old new s = replaced_from old new zero s
