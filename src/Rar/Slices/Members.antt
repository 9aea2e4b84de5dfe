-- ===== src/Rar/Slices/Members.antt =====
-- Which texts `SortCompact` keeps.
use policy_conditions.Base.{Bool, false, ◌||◌, ◌≡◌, refl, ◌∙◌, List, [], ◌∷◌, arith}
use policy_conditions.Base.Lists.{any}
use policy_conditions.Base.Text.{Text, text_eq, text_eq_iff}
use policy_conditions.Base.Sort.{insert_text, sort_texts}
use policy_conditions.Rar.Slices.{is_blank, compact, drop_blank, sort_compact}

abbrev pub has : Text → List Text → Bool
has x ts = any (text_eq x) ts

has-insert_text :
    (x t : Text) (ts : List Text) → has x (insert_text t ts) ≡ (text_eq x t || has x ts)
unfolding insert_text
has-insert_text x t [] = ground arith
has-insert_text x t (u ∷ us) = ground (arith, has-insert_text x t us)

has-sort_texts : (x : Text) (ts : List Text) → has x (sort_texts ts) ≡ has x ts
unfolding sort_texts
has-sort_texts x [] = refl
has-sort_texts x (t ∷ ts) = ground (arith, has-insert_text x t (sort_texts ts), has-sort_texts x ts)

has-compact : (x : Text) (ts : List Text) → has x (compact ts) ≡ has x ts
unfolding compact
has-compact x [] = refl
has-compact x (t ∷ []) = refl
has-compact x (t ∷ u ∷ us) = ground (arith, has-compact x (u ∷ us), text_eq_iff t u)

has-drop_blank : (x : Text) (ts : List Text) → is_blank x ≡ false → has x (drop_blank ts) ≡ has x ts
unfolding drop_blank
has-drop_blank x [] h = refl
has-drop_blank x (t ∷ ts) h = ground (arith, has-drop_blank x ts h, text_eq_iff x t)

-- `SortCompact` keeps each text that is not blank, and it adds none.
pub sort_compact-members :
    (x : Text) (ts : List Text) → is_blank x ≡ false → has x (sort_compact ts) ≡ has x ts
unfolding sort_compact
sort_compact-members x ts h =
    has-drop_blank x (compact (sort_texts ts)) h
    ∙ has-compact x (sort_texts ts)
    ∙ has-sort_texts x ts
