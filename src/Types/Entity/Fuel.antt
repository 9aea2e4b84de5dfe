-- ===== src/Types/Entity/Fuel.antt =====
-- `ParseEntity` calls itself on the members of a set only, and no member holds a set.
use policy_conditions.Base.{
  ℕ, suc, Bool, true, false, ◌||◌, not, ◌≡◌, refl, ap, ap₂, ◌∙◌, List, [], ◌∷◌, arith, ◌==◌,
  and-true, Bool-cases, inl, inr,
}
use policy_conditions.Base.Lists.{all, all-append}
use policy_conditions.Base.Text.{Text, split, push_first}
use policy_conditions.Types.Entity.{
  Entity, Scan, start, step, scan, parse_all, finish, parse_fuel, parse_entity,
}

-- no bracket
abbrev no_bracket : ℕ → Bool
no_bracket c = not (c == b'[' || c == b']')

abbrev IsFlat : Text → Type 0
IsFlat w = all no_bracket w ≡ true

-- Outside a set, a character that is no bracket makes no recursive call.
step_flat :
    (p q : Text → Entity) (s : Scan) (c : ℕ)
    → s.is_set ≡ false
    → no_bracket c ≡ true
    → (step p s c ≡ step q s c) × ((step q s c).is_set ≡ false)
unfolding step
step_flat p q s c h w = (ground arith, ground arith)

scan_flat :
    (p q : Text → Entity) (w : Text) (s : Scan)
    → s.is_set ≡ false
    → IsFlat w
    → scan p s w ≡ scan q s w
unfolding scan
scan_flat p q [] s h w = refl
scan_flat p q (c ∷ cs) s h w =
    let (here, later) = and-true (no_bracket c) (all no_bracket cs) w in
    let (same, outside) = step_flat p q s c h here in
    ap (λ t. scan p t cs) same ∙ scan_flat p q cs (step q s c) outside later

parse_flat : (n : ℕ) (w : Text) → IsFlat w → parse_fuel (suc n) w ≡ parse_fuel 1 w
unfolding parse_fuel
parse_flat n [] h = refl
parse_flat n (c ∷ cs) h = ap finish (scan_flat (parse_fuel n) (parse_fuel 0) (c ∷ cs) start refl h)

abbrev AreFlat : List Text → Type 0
AreFlat [] = Unit
AreFlat (w ∷ ws) = IsFlat w × AreFlat ws

push-AreFlat :
    (c : ℕ) (ws : List Text) → no_bracket c ≡ true → AreFlat ws → AreFlat (push_first c ws)
push-AreFlat c [] h f = (simp h, tt)
push-AreFlat c (w ∷ ws) h f = (simp (h, f.0), f.1)

split-AreFlat : (w : Text) → IsFlat w → AreFlat (split b',' w)
unfolding split
split-AreFlat [] h = (refl, tt)
split-AreFlat (c ∷ w) h =
    let (here, later) = and-true (no_bracket c) (all no_bracket w) h in
    elim (Bool-cases (c == b',')) [
      | inl e ↦ rw e (refl, split-AreFlat w later)
      | inr e ↦ rw e (push-AreFlat c (split b',' w) here (split-AreFlat w later))
    ]

module _ (p q : Text → Entity) (agree : (w : Text) → IsFlat w → p w ≡ q w) where
  parse_all_agree : (ws : List Text) → AreFlat ws → parse_all p ws ≡ parse_all q ws
  parse_all_agree [] h = refl
  parse_all_agree (w ∷ ws) h = ap₂ (λ e es. e ∷ es) (agree w h.0) (parse_all_agree ws h.1)

  step_agree :
      (s : Scan) (c : ℕ) → IsFlat s.setb → (step p s c ≡ step q s c) × IsFlat (step q s c).setb
  unfolding step
  step_agree s c h = (
    ground (arith, parse_all_agree (split b',' s.setb) (split-AreFlat s.setb h)),
    ground (arith, all-append no_bracket s.setb (c ∷ [])),
  )

  scan_agree : (w : Text) (s : Scan) → IsFlat s.setb → scan p s w ≡ scan q s w
  unfolding scan
  scan_agree [] s h = refl
  scan_agree (c ∷ w) s h =
      let (same, flat) = step_agree s c h in
      ap (λ t. scan p t w) same ∙ scan_agree w (step q s c) flat

-- Two levels of calls are all that `ParseEntity` ever makes: with more fuel the result is the same.
pub parse_fuel_enough : (n : ℕ) (w : Text) → parse_fuel (suc (suc n)) w ≡ parse_entity w
unfolding parse_fuel parse_entity
parse_fuel_enough n [] = refl
parse_fuel_enough n (c ∷ w) =
    ap finish (scan_agree (parse_fuel (suc n)) (parse_fuel 1) (parse_flat n) (c ∷ w) start refl)
