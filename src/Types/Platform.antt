-- ===== src/Types/Platform.antt =====
-- What the values of IDQL take from Go's runtime: floating point numbers, times, and JSON objects.
use policy_conditions.Base.{Bool, Option}
use policy_conditions.Base.Text.{Text}
use policy_conditions.Base.Dict.{Dict}

pub record Platform : Type 1 where
  -- `float64`, `strconv.ParseFloat` and the comparisons `<` and `==`
  pub Float : Type 0
  pub parse_float : Text → Option Float
  pub float_lt : Float → Float → Bool
  pub float_eq : Float → Float → Bool
  -- `time.Time`, `time.Parse` and `Format` with the layout RFC3339, `Before` and `Equal`
  pub Time : Type 0
  pub parse_time : Text → Option Time
  pub format_time : Time → Text
  pub time_before : Time → Time → Bool
  pub time_equal : Time → Time → Bool
  -- `json.Unmarshal` into the raw texts of an object's fields
  pub json_fields : Text → Option (Dict Text)
