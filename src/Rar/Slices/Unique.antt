-- ===== src/Rar/Slices/Unique.antt =====
-- Which texts the three parts of `DiffUnique` have.
use policy_conditions.Base.{
  Bool, true, false, not, ◌&&◌, ◌||◌, ◌≡◌, refl, ap, ◌∙◌, Option, none, some, List, [], ◌∷◌, arith,
  if◌then◌else◌, Option-cases, Bool-cases, inl, inr,
}
use policy_conditions.Base.Text.{Text, text_eq, text_eq_iff}
use policy_conditions.Base.Dict
use policy_conditions.Base.Dict.{Dict, get-put, get-nil}
use policy_conditions.Rar.Slices.{is_blank, sort_compact, fill, mark, keys_with, diff_unique}
use policy_conditions.Rar.Slices.Members.{has, sort_compact-members}

abbrev pub is_some_of : Bool → Option Bool → Bool
is_some_of b none = false
is_some_of true (some c) = c
is_some_of false (some c) = not c

abbrev known : Option Bool → Bool
known none = false
known (some c) = true

-- No key stands twice.
abbrev Distinct : Dict Bool → Type 0
Distinct [] = Unit
Distinct ((k, v) ∷ m) = (Dict.get k m ≡ none) × Distinct m

Distinct-put : (k : Text) (v : Bool) (m : Dict Bool) → Distinct m → Distinct (Dict.put k v m)
unfolding Dict.put
Distinct-put k v [] d = (get-nil k, tt)
Distinct-put k v ((j, w) ∷ m) d = elim (Bool-cases (text_eq j k)) [
  | inl e ↦ rw (e, Dict.put) d
  | inr e ↦
      rw (e, Dict.put)
        (get-put k j v m ∙ ground (arith, text_eq_iff k j, text_eq_iff j k), Distinct-put k v m d.1)
]

has-keys_with :
    (b : Bool) (x : Text) (m : Dict Bool)
    → Distinct m
    → has x (keys_with b m) ≡ is_some_of b (Dict.get x m)
unfolding keys_with Dict.get
has-keys_with true x [] d = refl
has-keys_with false x [] d = refl
has-keys_with true x ((k, v) ∷ m) (f, d) =
    ground (arith, has-keys_with true x m d, text_eq_iff x k, text_eq_iff k x)
has-keys_with false x ((k, v) ∷ m) (f, d) =
    ground (arith, has-keys_with false x m d, text_eq_iff x k, text_eq_iff k x)

fill-get :
    (x : Text) (m : Dict Bool) (ts : List Text)
    → is_blank x ≡ false
    → Dict.get x (fill m ts) ≡ (if has x ts then some false else Dict.get x m)
unfolding fill
fill-get x m [] h = refl
fill-get x m (t ∷ ts) h =
    fill-get x (if is_blank t then m else Dict.put t false m) ts h
    ∙ ground (arith, get-put t x false m, text_eq_iff x t, text_eq_iff t x)

fill-Distinct : (m : Dict Bool) (ts : List Text) → Distinct m → Distinct (fill m ts)
unfolding fill
fill-Distinct m [] d = d
fill-Distinct m (t ∷ ts) d =
    fill-Distinct (if is_blank t then m else Dict.put t false m) ts
      (elim (Bool-cases (is_blank t)) [ inl e ↦ rw e d | inr e ↦ rw e (Distinct-put t false m d) ])

-- what `mark` makes of the mark of one key
abbrev Marked : Text → List Text → Dict Bool → Dict Bool × List Text → Type 0
Marked x ts m r =
    (Dict.get x r.0 ≡ (if has x ts && known (Dict.get x m) then some true else Dict.get x m))
    × (has x r.1 ≡ (has x ts && not (known (Dict.get x m))))
    × (Distinct m → Distinct r.0)

mark-Marked :
    (x : Text) (m : Dict Bool) (ts : List Text) → is_blank x ≡ false → Marked x ts m (mark m ts)
unfolding mark
mark-Marked x m [] h = (refl, refl, λ d. d)
mark-Marked x m (t ∷ ts) h =
    let skip = mark-Marked x m ts h in
    let found = mark-Marked x (Dict.put t true m) ts h in
    let put = get-put t x true m in
    elim (Bool-cases (is_blank t)) [
      | inl e ↦
          rw (e, mark)
            (
              ground (arith, skip.0, text_eq_iff x t),
              ground (arith, skip.1, text_eq_iff x t),
              skip.2,
            )
      | inr e ↦ elim (Option-cases (Dict.get t m)) [
        | inl (b, f) ↦
            rw (e, f, mark)
              (
                found.0 ∙ ground (arith, put, text_eq_iff x t, text_eq_iff t x),
                found.1 ∙ ground (arith, put, text_eq_iff x t, text_eq_iff t x),
                λ d. found.2 (Distinct-put t true m d),
              )
        | inr f ↦
            rw (e, f, mark)
              (
                skip.0 ∙ ground (arith, text_eq_iff x t),
                ap (λ b. text_eq x t || b) skip.1 ∙ ground (arith, text_eq_iff x t),
                skip.2,
              )
      ]
    ]

-- A text that is not blank is in the first, the second or the third part of `DiffUnique` exactly if
-- it is in the first list alone, in both or in the second list alone.
pub diff_unique-members :
    (x : Text) (existing added : List Text)
    → is_blank x ≡ false
    → (has x (diff_unique existing added).only_first ≡ (has x existing && not (has x added)))
      × (has x (diff_unique existing added).shared ≡ (has x existing && has x added))
      × (has x (diff_unique existing added).only_second ≡ (has x added && not (has x existing)))
unfolding diff_unique
diff_unique-members x existing added h =
    let first = sort_compact existing in
    let second = sort_compact added in
    let m = fill [] first in
    let marked = mark-Marked x m second h in
    let d = marked.2 (fill-Distinct [] first tt) in
    let filled = fill-get x [] first h in
    let none_first = get-nil {V = Bool} x in
    let a = sort_compact-members x existing h in
    let b = sort_compact-members x added h in
    (
      has-keys_with false x (mark m second).0 d
          ∙ ground (arith, marked.0, filled, none_first, a, b),
      has-keys_with true x (mark m second).0 d ∙ ground (arith, marked.0, filled, none_first, a, b),
      marked.1 ∙ ground (arith, filled, none_first, a, b),
    )
