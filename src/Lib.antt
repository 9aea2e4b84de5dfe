-- ===== src/Lib.antt =====
-- The policy mapper of Hexa: conditions in IDQL, the values and entity paths in them, policies with
-- their comparison and reconciliation, and the RAR model of resources, actions and roles.
--
-- A provider hands over its policies as `PolicyInfo` records. Their conditions are texts, which
-- `ParseFilter` makes into syntax trees over the values of `pkg/hexapolicy/types`; the mappers walk
-- these trees, and `SerializeExpression` writes them as text again. `ReconcilePolicies` compares two
-- sets of policies, by id where there is one and by etag otherwise, through `Compare` and `Equals`; the
-- provider for Amazon Verified Permissions does so by id only, with policies that go through Cedar. The API
-- gateway goes through the records of `models/rar`, whose members are lists of roles, and Azure
-- has a policy for each role. Google's bindings are made of policies and policies of
-- bindings, the condition of one through the CEL mapper.
--
--   Base        strings, lists, Go maps as association lists, and the sorting of strings
--   Types       pkg/hexapolicy/types: entity.go is Types/Entity, value.go with the value types is
--               Types/Value (String, LessThan and Equals, CompareValues, ParseValue)
--   Conditions  pkg/hexapolicy/conditions: parser/types.go is Conditions/Ast; of conditions.go,
--               SerializeExpression is Conditions/Serialize, and the walks over a tree and the name
--               mapper are Conditions/Walk
--   Parser      pkg/hexapolicy/conditions/parser/parser.go: the local variables of parseFilterSub are
--               the record State, each case of its switch is a function of Parser/Step, the two inner
--               loops are Parser/Brackets, and the loop with what follows it is Parser/Loop
--   Policy      pkg/hexapolicy/hexa_policy.go: Policy/Info has the records and CalculateEtag,
--               Policy/Equality has Equals and Compare (and ConditionInfo.Equals of conditions.go),
--               Policy/Reconcile has ReconcilePolicies
--   Rar         models/rar: functionalsupport/slice_support.go is Rar/Slices,
--               resource_action_role.go is Rar/Roles, and policy_transformer.go with
--               resource_action_role_policy_support.go is Rar/Transform
--   Gcp         models/conditionLangs/gcpcel/gcp_condition_mapper.go: the mapper from IDQL to CEL is
--               Gcp/Cel, with the precedence of CEL's operators in Gcp/Cel/Grammar, the mapper from
--               CEL to IDQL is Gcp/FromCel; models/formats/gcpBind/google_bind_policy.go is Gcp/Bind
--   Pim         models/policyInfoModel/schema.go is Pim/Schema; of pkg/hexapolicy/pimValidate/validate.go
--               the checks of subjects, object and actions are Pim/Entities, those of a condition are
--               Pim/Operands, and ValidatePolicy with ValidatePolicies is Pim/Validate
--   Cedar       models/conditionLangs/cedarConditions/map_hexa.go: MultiLogicalExpression is Cedar/Flat, the
--               text of a comparison is Cedar/Comparison, and the clauses are Cedar/Conditions; map_cedar.go
--               is Cedar/FromCedar, with the comparisons in Cedar/FromCedar/Leaves. Of
--               models/formats/cedar/cedar_mapper.go mapCedarScope and mapHexaValue are Cedar/Scope, and whole
--               policies are Cedar/Policies
--   Avp         providers/aws/avpProvider/avp_provider.go: GetPolicyInfo is Avp/Reading, Reconcile is
--               Avp/Reconcile, and SetPolicyInfo is Avp/Setting; the interface of avpClient/avp_client.go is
--               the record Client of operations on the state of the remote store
--   Azure       providers/azure/azureProvider/azure_policy_mapper.go
--   Tests       runs at concrete inputs
--
-- Strings are lists of bytes, and they are taken to be ASCII: positions in a text count bytes and runes
-- alike, and letters change case as in ASCII. A nil slice is told from an empty one where the code
-- does. A Go map is visited in the order of first insertion, where Go leaves the order open. Where the
-- code would panic on a nil pointer or a failed type assertion, the result is `none`; the parser of conditions
-- gives the error of an unreadable value for the one text on which the parser of values panics.
--
-- Parameters of the model are floating point numbers, times and the JSON decoder (the record
-- Types/Platform), `etag.Generate`, a function on the bytes of a policy, the parsers of CEL and of
-- Cedar, `ParseDecimal` of cedar-go, `strconv.Unquote`, and the client of Amazon Verified Permissions. Nothing is
-- assumed of them, but that the decoder gives each field as a part of the object's text, where a result
-- says so.
--
-- Loops over lists are structural. The parser of conditions runs on fuel, the length of the text for
-- the loop and for nested calls: a round moves on, and a nested call has a shorter text. The parser of entity paths has two levels
-- of calls, which its fuel allows. The parser of values makes nested calls on shorter texts, and its fuel
-- is the length of the text. The search for an attribute of a schema has its fuel as an argument, since
-- no fuel is enough for a schema whose common types refer to themselves.
--
-- Not modelled: JSON in and out with the migration of the old policy format, the console texts, the
-- format mapper of Amazon Cedar, the files of Google bindings and schemas, the paging of lists, and the other
-- providers, which call remote services.
pub mod Base
pub mod Types
pub mod Conditions
pub mod Parser
pub mod Policy
pub mod Rar
pub mod Gcp
pub mod Pim
pub mod Cedar
pub mod Avp
pub mod Azure
mod Tests
