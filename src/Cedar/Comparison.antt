-- ===== src/Cedar/Comparison.antt =====
-- models/conditionLangs/cedarConditions/map_hexa.go: the Cedar text of a comparison.
use policy_conditions.Base.{◌&&◌, Option, none, some, [], ◌∷◌, ◌++◌, ◌==◌, if◌then◌else◌}
use policy_conditions.Base.Text.{Text, codes, has_prefix, has_suffix}
use policy_conditions.Types.Platform.{Platform}
use policy_conditions.Types.Value.{Value, value_string}
use policy_conditions.Types.Value.Compare.{
  CompareOperator, pr, eq, ne, within, sw, ew, gt, lt, ge, le, is_type, co,
}
use policy_conditions.Conditions.Walk.{AttributeMap, get_provider_attribute_name}

-- the text before the last dot and the text behind it
unfoldable pub last_dot : Text → Option (Text × Text)
last_dot [] = none
last_dot (c ∷ cs) = elim (last_dot cs) [
  | some (l, r) ↦ some (c ∷ l, r)
  | none ↦ if c == b'.' then some ([], cs) else none
]

abbrev optional_text : {P : Platform} → Option (Value P) → Text
optional_text none = []
optional_text (some v) = value_string v

abbrev pub spaced : Text → Text → Text → Text
spaced l op r = l ++ (codes " " ++ (op ++ (codes " " ++ r)))

-- an ordering, as a method of decimals or as an operator
abbrev ordered : Option Text → Text → Text → Text → Text → Text
ordered none path method op value = spaced path op value
ordered (some d) path method op value =
    path ++ (codes "." ++ (method ++ (codes "(" ++ (d ++ codes ")"))))

abbrev has_text : Option (Text × Text) → Option Text
has_text none = none
has_text (some (l, r)) = some (l ++ (codes " has " ++ r))

-- `unquote` stands for `strconv.Unquote`, none for its error.
module _ (unquote : Text → Option Text) where
  -- `removeQuotes`
  unfoldable pub remove_quotes : Text → Text
  remove_quotes v =
      if has_suffix v (codes "\"") && has_prefix v (codes "\"")
      then elim (unquote v) [ none ↦ v | some t ↦ t ]
      else v

-- `unquote` stands for `strconv.Unquote`, none for its error, and `decimal` for `types.ParseDecimal` of
-- cedar-go, with the text of the decimal.
module _ (unquote decimal : Text → Option Text) where
  -- a comparison of a mapped path with the text of a value
  unfoldable pub comparison : Text → CompareOperator → Text → Option Text
  unfolding remove_quotes last_dot
  comparison path ne v = some (path ++ (codes " != " ++ v))
  comparison path lt v = some (ordered (decimal v) path (codes "lessThan") (codes "<") v)
  comparison path le v = some (ordered (decimal v) path (codes "lessThanOrEqual") (codes "<=") v)
  comparison path gt v = some (ordered (decimal v) path (codes "greaterThan") (codes ">") v)
  comparison path ge v = some (ordered (decimal v) path (codes "greaterThanOrEqual") (codes ">=") v)
  comparison path sw v =
      some (path ++ (codes " like \"" ++ (remove_quotes unquote v ++ codes "*\"")))
  comparison path ew v =
      some (path ++ (codes " like \"*" ++ (remove_quotes unquote v ++ codes "\"")))
  comparison path pr v = has_text (last_dot path)
  comparison path co v = some (path ++ (codes ".contains(" ++ (v ++ codes ")")))
  comparison path within v = some (path ++ (codes " in " ++ v))
  comparison path eq v = some (path ++ (codes " == " ++ v))
  comparison path is_type v = some (path ++ (codes " == " ++ v))

  -- `mapFilterAttrExpr`
  unfoldable pub map_filter_attr_expr :
      {P : Platform} → AttributeMap → Value P → CompareOperator → Option (Value P) → Option Text
  unfolding comparison
  map_filter_attr_expr n v op w =
      comparison (get_provider_attribute_name n (value_string v)) op (optional_text w)
