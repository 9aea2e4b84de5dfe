-- ===== src/Base/Sort/Order.antt =====
-- The order of strings, and that a sorted list does not depend on the order before.
use policy_conditions.Base.Text.{Text, text_lt}
use policy_conditions.Base.Sort.{insert_text, sort_texts}
use mathlib.Core.Path.{◌≡◌, refl, sym, ap, ◌∙◌}
use mathlib.Core.Bool.{true, false}
use mathlib.Core.List.{List, [], ◌∷◌, ◌++◌, append-nil}
use native.Mathlib.Omega.{arith}

pub text_lt_trans : (s t u : Text) → text_lt s t ≡ true → text_lt t u ≡ true → text_lt s u ≡ true
unfolding text_lt
text_lt_trans [] [] u h k = cc
text_lt_trans [] (y ∷ t) [] h k = cc
text_lt_trans [] (y ∷ t) (z ∷ u) h k = refl
text_lt_trans (x ∷ s) [] u h k = cc
text_lt_trans (x ∷ s) (y ∷ t) [] h k = cc
text_lt_trans (x ∷ s) (y ∷ t) (z ∷ u) h k = ground (arith, text_lt_trans s t u)

pub text_lt_asym : (s t : Text) → text_lt s t ≡ true → text_lt t s ≡ false
unfolding text_lt
text_lt_asym [] [] h = refl
text_lt_asym [] (y ∷ t) h = refl
text_lt_asym (x ∷ s) [] h = cc
text_lt_asym (x ∷ s) (y ∷ t) h = ground (arith, text_lt_asym s t)

-- Strings of which neither is less are the same.
pub text_lt_total : (s t : Text) → text_lt s t ≡ false → text_lt t s ≡ false → s ≡ t
unfolding text_lt
text_lt_total [] [] h k = refl
text_lt_total [] (y ∷ t) h k = cc
text_lt_total (x ∷ s) [] h k = cc
text_lt_total (x ∷ s) (y ∷ t) h k = ground (arith, text_lt_total s t)

pub insert_text_comm :
    (s t : Text) (us : List Text)
    → insert_text s (insert_text t us) ≡ insert_text t (insert_text s us)
unfolding insert_text
insert_text_comm s t [] = ground (arith, text_lt_asym s t, text_lt_asym t s, text_lt_total s t)
insert_text_comm s t (u ∷ us) = ground (
  arith,
  text_lt_asym s t,
  text_lt_asym t s,
  text_lt_total s t,
  text_lt_trans s t u,
  text_lt_trans t s u,
  insert_text_comm s t us,
)

pub sort_texts-middle :
    (t : Text) (us vs : List Text)
    → sort_texts (us ++ (t ∷ vs)) ≡ insert_text t (sort_texts (us ++ vs))
unfolding sort_texts
sort_texts-middle t [] vs = refl
sort_texts-middle t (u ∷ us) vs =
    ap (insert_text u) (sort_texts-middle t us vs) ∙ insert_text_comm u t (sort_texts (us ++ vs))

pub sort_texts-swap : (us vs : List Text) → sort_texts (us ++ vs) ≡ sort_texts (vs ++ us)
unfolding sort_texts
sort_texts-swap [] vs = ap sort_texts (sym (append-nil vs))
sort_texts-swap (u ∷ us) vs =
    ap (insert_text u) (sort_texts-swap us vs) ∙ sym (sort_texts-middle u vs us)

pub sort_texts-right :
    (us : List Text) (vs ws : List Text)
    → sort_texts vs ≡ sort_texts ws
    → sort_texts (us ++ vs) ≡ sort_texts (us ++ ws)
unfolding sort_texts
sort_texts-right [] vs ws h = h
sort_texts-right (u ∷ us) vs ws h = ap (insert_text u) (sort_texts-right us vs ws h)
