-- ===== src/Rar/Slices.antt =====
-- models/rar/functionalsupport/slice_support.go
pub mod Members
pub mod Order
pub mod Unique
use policy_conditions.Base.{
  Bool, true, false, not, ◌||◌, Option, none, some, List, [], ◌∷◌, ◌++◌, if◌then◌else◌,
}
use policy_conditions.Base.Lists.{is_empty}
use policy_conditions.Base.Text.{Text, text_eq, trim_space}
use policy_conditions.Base.Sort.{sort_texts}
use policy_conditions.Base.Dict
use policy_conditions.Base.Dict.{Dict}

-- `strings.TrimSpace(s) == ""`
unfoldable pub is_blank : Text → Bool
is_blank s = is_empty (trim_space s)

-- `slices.Compact`: drops an element that equals the one before it
unfoldable pub compact : List Text → List Text
compact [] = []
compact (t ∷ []) = t ∷ []
compact (t ∷ u ∷ us) = let rest = compact (u ∷ us) in if text_eq t u then rest else t ∷ rest

-- the loop of `startIdx`
unfoldable pub drop_blank : List Text → List Text
drop_blank [] = []
drop_blank (t ∷ ts) = if is_blank t then drop_blank ts else t ∷ ts

-- `SortCompact`
unfoldable pub sort_compact : List Text → List Text
unfolding compact drop_blank
sort_compact arr = drop_blank (compact (sort_texts arr))

-- the loop that fills `map1`
unfoldable pub fill : Dict Bool → List Text → Dict Bool
fill m [] = m
fill m (t ∷ ts) = fill (if is_blank t then m else Dict.put t false m) ts

-- The loop over `sorted2`: what it leaves of `map1`, and `diff2`.
unfoldable pub mark : Dict Bool → List Text → Dict Bool × List Text
mark m [] = (m, [])
mark m (t ∷ ts) =
    let skip = mark m ts in
    let found = mark (Dict.put t true m) ts in
    if is_blank t
    then skip
    else elim (Dict.get t m) [ some _ ↦ found | none ↦ (skip.0, t ∷ skip.1) ]

-- the keys of `map1` with a mark
unfoldable pub keys_with : Bool → Dict Bool → List Text
keys_with b [] = []
keys_with true ((k, v) ∷ m) = if v then k ∷ keys_with true m else keys_with true m
keys_with false ((k, v) ∷ m) = if v then keys_with false m else k ∷ keys_with false m

-- What `DiffUnique` returns. A Go map is visited in any order; here, in the order of insertion.
pub record Split : Type 0 where
  pub only_first : List Text
  pub shared : List Text
  pub only_second : List Text

-- `DiffUnique`
unfoldable pub diff_unique : List Text → List Text → Split
unfolding fill mark keys_with
diff_unique arr1 arr2 =
    let (m, only_second) = mark (fill [] (sort_compact arr1)) (sort_compact arr2) in
    record { only_first = keys_with false m; shared = keys_with true m; only_second = only_second }
