-- ===== src/Cedar/Scope/Splitting.antt =====
-- `strings.Split` at two colons, and `strings.Join`.
use policy_conditions.Base.{
  ℕ, leb, Bool, true, false, ◌≡◌, refl, sym, ap, ◌∙◌, List, [], ◌∷◌, ◌++◌, ◌==◌, if◌then◌else◌,
  arith, append_assoc, append-nil, and-true,
}
use policy_conditions.Base.Lists.{all}
use policy_conditions.Base.Text.{Text, codes, equal_fold, lower, join}
use policy_conditions.Cedar.Scope.{split_after, split_types}

-- every character is a lower-case letter, or a later one
abbrev pub are_letters : Text → Bool
are_letters t = all (λ c. leb b'a' (lower c)) t

pub equal_fold-mark :
    (w : Text) (c : ℕ) (r t : Text)
    → leb b'a' (lower c) ≡ false
    → are_letters t ≡ true
    → equal_fold (w ++ (c ∷ r)) t ≡ false
unfolding equal_fold
equal_fold-mark [] c r [] h k = refl
equal_fold-mark [] c r (y ∷ t) h k = ground (arith, h, k)
equal_fold-mark (x ∷ w) c r [] h k = refl
equal_fold-mark (x ∷ w) c r (y ∷ t) h k =
    let (here, later) = and-true (leb b'a' (lower y)) (are_letters t) k in
    ground (arith, equal_fold-mark w c r t h later)

join-filled :
    (sep t : Text) (p : Bool) (seg s : Text)
    → join sep (t ∷ split_after p seg s) ≡ t ++ (sep ++ join sep (split_after p seg s))
unfolding split_after join
join-filled sep t p seg [] = refl
join-filled sep t true seg (c ∷ cs) =
    elim (c == b':')
      as (λ (b : Bool).
        join sep (
          t
          ∷ (if b
              then seg ∷ split_after false [] cs
              else split_after false ((seg ++ codes ":") ++ (c ∷ [])) cs))
        ≡ t
          ++ (sep
              ++ join sep (
                  if b
                  then seg ∷ split_after false [] cs
                  else split_after false ((seg ++ codes ":") ++ (c ∷ [])) cs))) [
                    | true ↦ refl
                    | false ↦ join-filled sep t false ((seg ++ codes ":") ++ (c ∷ [])) cs
                  ]
join-filled sep t false seg (c ∷ cs) =
    elim (c == b':')
      as (λ (b : Bool).
        join sep
          (t ∷ (if b then split_after true seg cs else split_after false (seg ++ (c ∷ [])) cs))
        ≡ t
          ++ (sep
              ++ join sep (
                  if b then split_after true seg cs else split_after false (seg ++ (c ∷ [])) cs))) [
                    | true ↦ join-filled sep t true seg cs
                    | false ↦ join-filled sep t false (seg ++ (c ∷ [])) cs
                  ]

join-split_after :
    (p : Bool) (seg s : Text)
    → join (codes "::") (split_after p seg s) ≡ (if p then seg ++ codes ":" else seg) ++ s
unfolding split_after join
join-split_after p seg [] = sym (append-nil (if p then seg ++ codes ":" else seg))
join-split_after true seg (c ∷ cs) =
    elim (c == b':')
        as (λ (b : Bool).
          (c == b':') ≡ b
          → join (codes "::") (
              if b
              then seg ∷ split_after false [] cs
              else split_after false ((seg ++ codes ":") ++ (c ∷ [])) cs)
            ≡ (seg ++ codes ":") ++ (c ∷ cs)) [
              | true ↦ λ h.
                  join-filled (codes "::") seg false [] cs
                  ∙ ap (λ x. seg ++ (codes "::" ++ x)) (join-split_after false [] cs)
                  ∙ sym (append_assoc seg (codes ":") (b':' ∷ cs))
                  ∙ ap (λ x. (seg ++ codes ":") ++ (x ∷ cs)) (ground (arith, h))
              | false ↦ λ h.
                  join-split_after false ((seg ++ codes ":") ++ (c ∷ [])) cs
                  ∙ append_assoc (seg ++ codes ":") (c ∷ []) cs
            ]
      refl
join-split_after false seg (c ∷ cs) =
    elim (c == b':')
        as (λ (b : Bool).
          (c == b':') ≡ b
          → join (codes "::")
              (if b then split_after true seg cs else split_after false (seg ++ (c ∷ [])) cs)
            ≡ seg ++ (c ∷ cs)) [
              | true ↦ λ h.
                  join-split_after true seg cs
                  ∙ append_assoc seg (codes ":") cs
                  ∙ ap (λ x. seg ++ (x ∷ cs)) (ground (arith, h))
              | false ↦
                  λ h. join-split_after false (seg ++ (c ∷ [])) cs ∙ append_assoc seg (c ∷ []) cs
            ]
      refl

-- The segments of a type, joined again
pub join-split_types : (s : Text) → join (codes "::") (split_types s) ≡ s
unfolding split_types
join-split_types s = join-split_after false [] s

split_after-cons :
    (p : Bool) (seg s : Text) → (t : Text) × (ts : List Text) × split_after p seg s ≡ t ∷ ts
unfolding split_after
split_after-cons p seg [] = ((if p then seg ++ codes ":" else seg), [], refl)
split_after-cons true seg (c ∷ cs) =
    elim (c == b':')
      as (λ (b : Bool).
        (t : Text) × (ts : List Text) × (if b
            then seg ∷ split_after false [] cs
            else split_after false ((seg ++ codes ":") ++ (c ∷ [])) cs)
          ≡ t ∷ ts) [
            | true ↦ (seg, split_after false [] cs, refl)
            | false ↦ split_after-cons false ((seg ++ codes ":") ++ (c ∷ [])) cs
          ]
split_after-cons false seg (c ∷ cs) =
    elim (c == b':')
      as (λ (b : Bool).
        (t : Text) × (ts : List Text) × (if b
            then split_after true seg cs
            else split_after false (seg ++ (c ∷ [])) cs)
          ≡ t ∷ ts) [
            | true ↦ split_after-cons true seg cs
            | false ↦ split_after-cons false (seg ++ (c ∷ [])) cs
          ]

-- There is at least one segment.
pub split_types-cons : (s : Text) → (t : Text) × (ts : List Text) × split_types s ≡ t ∷ ts
unfolding split_types
split_types-cons s = split_after-cons false [] s
