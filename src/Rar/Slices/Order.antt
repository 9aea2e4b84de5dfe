-- ===== src/Rar/Slices/Order.antt =====
-- The order of the texts that `SortCompact` returns.
use policy_conditions.Base.{Bool, true, false, not, ◌&&◌, ◌≡◌, refl, List, [], ◌∷◌, arith}
use policy_conditions.Base.Text.{Text, text_eq_iff, text_lt}
use policy_conditions.Base.Sort.{insert_text, sort_texts}
use policy_conditions.Base.Sort.Order.{text_lt_asym, text_lt_total}
use policy_conditions.Rar.Slices.{compact, drop_blank, sort_compact}

-- the first text, if there is one, is not less than `t`
abbrev not_below : Text → List Text → Bool
not_below t [] = true
not_below t (u ∷ us) = not (text_lt u t)

abbrev sorted : List Text → Bool
sorted [] = true
sorted (t ∷ ts) = not_below t ts && sorted ts

-- the first text, if there is one, is greater than `t`
abbrev pub above : Text → List Text → Bool
above t [] = true
above t (u ∷ us) = text_lt t u

-- Each text is less than the next.
abbrev pub ascending : List Text → Bool
ascending [] = true
ascending (t ∷ ts) = above t ts && ascending ts

not_below-insert_text :
    (t u : Text) (us : List Text)
    → text_lt u t ≡ false
    → not_below t us ≡ true
    → not_below t (insert_text u us) ≡ true
unfolding insert_text
not_below-insert_text t u [] h k = ground arith
not_below-insert_text t u (v ∷ vs) h k = ground arith

sorted-insert_text :
    (t : Text) (us : List Text) → sorted us ≡ true → sorted (insert_text t us) ≡ true
unfolding insert_text
sorted-insert_text t [] h = refl
sorted-insert_text t (u ∷ us) h =
    ground (arith, text_lt_asym t u, sorted-insert_text t us, not_below-insert_text u t us)

sorted-sort_texts : (ts : List Text) → sorted (sort_texts ts) ≡ true
unfolding sort_texts
sorted-sort_texts [] = refl
sorted-sort_texts (t ∷ ts) = sorted-insert_text t (sort_texts ts) (sorted-sort_texts ts)

above-compact : (t u : Text) (us : List Text) → above t (compact (u ∷ us)) ≡ text_lt t u
unfolding compact
above-compact t u [] = refl
above-compact t u (v ∷ vs) = ground (arith, above-compact t v vs, text_eq_iff u v)

ascending-compact : (ts : List Text) → sorted ts ≡ true → ascending (compact ts) ≡ true
unfolding compact
ascending-compact [] h = refl
ascending-compact (t ∷ []) h = refl
ascending-compact (t ∷ u ∷ us) h =
    ground
      (arith, ascending-compact (u ∷ us), above-compact t u us, text_lt_total t u, text_eq_iff t u)

ascending-drop_blank : (ts : List Text) → ascending ts ≡ true → ascending (drop_blank ts) ≡ true
unfolding drop_blank
ascending-drop_blank [] h = refl
ascending-drop_blank (t ∷ ts) h = ground (arith, ascending-drop_blank ts)

-- `SortCompact` returns its texts in strictly ascending order, so none of them twice.
pub sort_compact-ascending : (ts : List Text) → ascending (sort_compact ts) ≡ true
unfolding sort_compact
sort_compact-ascending ts =
    ascending-drop_blank (compact (sort_texts ts))
      (ascending-compact (sort_texts ts) (sorted-sort_texts ts))
