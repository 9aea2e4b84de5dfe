-- ===== src/Base/Sort.antt =====
-- `sort.Strings`, as an insertion sort; equal strings cannot be told apart.
pub mod Order
use policy_conditions.Base.Tests.{if◌then◌else◌}
use policy_conditions.Base.Text.{Text, text_lt}
use mathlib.Core.List.{List, [], ◌∷◌}

-- before the first element that is greater
unfoldable pub insert_text : Text → List Text → List Text
insert_text t [] = t ∷ []
insert_text t (u ∷ us) = if text_lt t u then t ∷ u ∷ us else u ∷ insert_text t us

unfoldable pub sort_texts : List Text → List Text
unfolding insert_text
sort_texts [] = []
sort_texts (t ∷ ts) = insert_text t (sort_texts ts)
