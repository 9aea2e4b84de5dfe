-- ===== src/Avp/Reconcile.antt =====
-- providers/aws/avpProvider/avp_provider.go: `Reconcile`. A Go map is visited in any order; here, in the order of
-- first insertion. An empty `SourceData` stands for nil.
use policy_conditions.Base.{
  Bool, false, ◌||◌, Option, none, some, List, [], ◌∷◌, ◌++◌, map, if◌then◌else◌,
}
use policy_conditions.Base.Lists.{any}
use policy_conditions.Base.Text.{Text, codes, text_eq, contains}
use policy_conditions.Base.Dict
use policy_conditions.Base.Dict.{Dict}
use policy_conditions.Types.Platform.{Platform}
use policy_conditions.Policy.Info.{PolicyInfo, no_meta, elements}
use policy_conditions.Policy.Equality.{Difference, compare}
use policy_conditions.Policy.Reconcile.{
  ChangeType, new, matched, update, delete, ignore, PolicyDif, has_equal,
}

-- `isTemplate`
unfoldable pub is_template : PolicyInfo → Bool
is_template p = elim p.meta.source_data [
  | [] ↦
      any (text_eq (codes "?principal")) (elements p.subjects)
      || contains p.object (codes "?resource")
  | kv ∷ rest ↦ elim (Dict.get (codes "policyType") (kv ∷ rest)) [
    | none ↦ false
    | some t ↦ text_eq t (codes "TEMPLATE_LINKED")
  ]
]

abbrev pub dif : ChangeType → List Difference → List PolicyInfo → Option PolicyInfo → PolicyDif
dif change types existing compared = record {
  change = change;
  policy_id = [];
  hash = [];
  dif_types = types;
  exist = existing;
  compared = compared;
}

-- what a read of a missing key gives
abbrev empty_policy : PolicyInfo
empty_policy = record {
  meta = no_meta;
  subjects = none;
  actions = none;
  object = [];
  condition = none;
  scope = none;
}

abbrev or_empty_policy : Option PolicyInfo → PolicyInfo
or_empty_policy none = empty_policy
or_empty_policy (some p) = p

-- the entries of one policy, and what then remains
abbrev pub Round : Type 0
Round = List PolicyDif × Dict PolicyInfo

-- the end of a round, for a policy without an existing one
unfoldable pub new_round : Dict PolicyInfo → PolicyInfo → Round
unfolding is_template
new_round m p = (if is_template p then [] else dif new [] [] (some p) ∷ [], m)

-- a round for a policy and an existing one with its id, from their differences
unfoldable pub known_round :
    Bool → Dict PolicyInfo → Text → PolicyInfo → PolicyInfo → List Difference → Round
known_round diffs_only m i p source ds = (
  if has_equal ds
      then (if diffs_only then [] else dif matched [] (source ∷ []) (some p) ∷ [])
      else dif update ds (source ∷ []) (some p) ∷ [],
  Dict.remove i m,
)

-- the index of the existing policies; one without an identifier panics
unfoldable pub avp_index : Dict PolicyInfo → List PolicyInfo → Option (Dict PolicyInfo)
avp_index m [] = some m
avp_index m (p ∷ ps) = elim p.meta.policy_id [
  | none ↦ none
  | some i ↦ avp_index (Dict.put i p m) ps
]

abbrev pub deletes : Dict PolicyInfo → List PolicyDif
deletes m = map (λ p. dif delete [] (p ∷ []) none) (Dict.values m)

abbrev pub then_rest : List PolicyDif → Option Round → Option Round
then_rest ds none = none
then_rest ds (some (es, m)) = some (ds ++ es, m)

module _ (P : Platform) (generate : Text → Text) where
  -- a round for a policy of the provider with its identifier
  unfoldable pub avp_round_of : Bool → Dict PolicyInfo → Text → PolicyInfo → Option Round
  unfolding is_template new_round known_round
  avp_round_of diffs_only m i p =
      if is_template p
      then some (dif ignore [] (or_empty_policy (Dict.get i m) ∷ []) (some p) ∷ [], Dict.remove i m)
      else elim (Dict.get i m) [
        | none ↦ some (new_round m p)
        | some source ↦ elim (compare P generate p source) [
          | none ↦ none
          | some ds ↦ some (known_round diffs_only m i p source ds)
        ]
      ]

  -- a round of the second loop; none where it panics
  unfoldable pub avp_round : Bool → Dict PolicyInfo → PolicyInfo → Option Round
  unfolding avp_round_of new_round
  avp_round diffs_only m p =
      if text_eq p.meta.provider_type (codes "avp")
      then elim p.meta.policy_id [ none ↦ none | some i ↦ avp_round_of diffs_only m i p ]
      else some (new_round m p)

  unfoldable pub avp_rounds : Bool → Dict PolicyInfo → List PolicyInfo → Option Round
  unfolding avp_round
  avp_rounds diffs_only m [] = some ([], m)
  avp_rounds diffs_only m (p ∷ ps) = elim (avp_round diffs_only m p) [
    | none ↦ none
    | some (ds, m') ↦ then_rest ds (avp_rounds diffs_only m' ps)
  ]

  -- `Reconcile`, from the existing policies; none where it panics
  unfoldable pub reconcile_avp : List PolicyInfo → List PolicyInfo → Bool → Option (List PolicyDif)
  unfolding avp_index avp_rounds
  reconcile_avp existing compared diffs_only = elim (avp_index [] existing) [
    | none ↦ none
    | some m ↦ elim (avp_rounds diffs_only m compared) [
      | none ↦ none
      | some (ds, rest) ↦ some (ds ++ deletes rest)
    ]
  ]
