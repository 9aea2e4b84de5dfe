-- ===== src/Types/Value/Parse/Fuel.antt =====
-- `ParseValue` makes nested calls on shorter texts only, so its fuel is enough.
use mathlib.Core.List.{reverse, reverse-cons, reverse-reverse}
use policy_conditions.Base.{
  ℕ, zero, suc, ◌-◌, ◌≤◌, ◌<◌, true, false, ◌&&◌, ◌≡◌, refl, ap, ap₂, ◌∙◌, Option, none, some, List,
  [], ◌∷◌, ◌==◌, arith, Bool-cases, Option-cases, inl, inr, and-true,
}
use policy_conditions.Base.Lists.{length, take, length-append}
use policy_conditions.Base.Text.{
  Text, has_prefix, has_suffix, trim_left, trim_space, is_space, split, push_first, cut_prefix,
}
use policy_conditions.Base.Dict.{Dict}
use policy_conditions.Types.Platform.{Platform}
use policy_conditions.Types.Value.{Value, Fields, array, object, Comparable}
use policy_conditions.Types.Value.Parse.{
  add_item, add_field, items, fields, trim_bracket, parse_array, parse_object, wrapped, classify,
  parse_value_fuel, parse_value,
}

abbrev AllShorter : ℕ → List Text → Type 0
AllShorter n [] = Unit
AllShorter n (t ∷ ts) = (length t < n) × AllShorter n ts

-- the texts of the fields are shorter than `n`
abbrev pub ShorterFields : ℕ → Dict Text → Type 0
ShorterFields n [] = Unit
ShorterFields n ((k, t) ∷ m) = (length t < n) × ShorterFields n m

-- The decoder gives each field of an object as a part of the object's text.
abbrev pub HasPartialFields : Platform → Type 0
HasPartialFields P =
    (s : Text) (m : Dict Text) → P.json_fields s ≡ some m → ShorterFields (length s) m

length-trim_left : (s : Text) → length (trim_left s) ≤ length s
unfolding trim_left
length-trim_left [] = ground arith
length-trim_left (c ∷ s) = ground (arith, length-trim_left s)

length-reverse : (s : Text) → length (reverse s) ≡ length s
length-reverse [] = refl
length-reverse (c ∷ s) =
    ap length (reverse-cons c s)
    ∙ length-append (reverse s) (c ∷ [])
    ∙ omega (arith, length-reverse s)

length-trim_space : (s : Text) → length (trim_space s) ≤ length s
unfolding trim_space
length-trim_space s = omega (
  arith,
  length-reverse (trim_left (reverse (trim_left s))),
  length-trim_left (reverse (trim_left s)),
  length-reverse (trim_left s),
  length-trim_left s,
)

length-take : (n : ℕ) (s : Text) → length (take n s) ≤ length s
length-take zero s = omega arith
length-take (suc n) [] = omega arith
length-take (suc n) (c ∷ s) = omega (arith, length-take n s)

length-trim_bracket : (s : Text) → length (trim_bracket s) ≤ length s
unfolding trim_bracket
length-trim_bracket s = ground (arith, length-take (length s - 1) s)

trim_left-bracket :
    (c : ℕ) (s : Text) → has_prefix s (c ∷ []) ≡ true → is_space c ≡ false → trim_left s ≡ s
unfolding trim_left has_prefix
trim_left-bracket c [] h k = cc
trim_left-bracket c (b ∷ s) h k = ground arith

-- A text in square brackets has no blanks around it.
trim_space-bracketed :
    (s : Text)
    → has_prefix s (b'[' ∷ []) ≡ true
    → has_suffix s (b']' ∷ []) ≡ true
    → trim_space s ≡ s
unfolding has_suffix trim_space is_space
trim_space-bracketed s start last =
    ap (λ t. reverse (trim_left (reverse t))) (trim_left-bracket b'[' s start refl)
    ∙ ap reverse (trim_left-bracket b']' (reverse s) last refl)
    ∙ reverse-reverse s

length-cut_prefix :
    (s : Text) → has_prefix s (b'[' ∷ []) ≡ true → length (cut_prefix s (b'[' ∷ [])) < length s
unfolding cut_prefix has_prefix
length-cut_prefix [] h = cc
length-cut_prefix (c ∷ s) h = ground arith

body-shorter :
    (s : Text)
    → has_prefix s (b'[' ∷ []) ≡ true
    → has_suffix s (b']' ∷ []) ≡ true
    → length (trim_bracket (cut_prefix (trim_space s) (b'[' ∷ []))) < length s
body-shorter s start last =
    rw (trim_space-bracketed s start last)
      (omega (arith, length-trim_bracket (cut_prefix s (b'[' ∷ [])), length-cut_prefix s start))

AllShorter-suc : (n : ℕ) (ts : List Text) → AllShorter n ts → AllShorter (suc n) ts
AllShorter-suc n [] h = tt
AllShorter-suc n (t ∷ ts) h = (omega (arith, h.0), AllShorter-suc n ts h.1)

AllShorter-push_first :
    (n c : ℕ) (ts : List Text) → 0 < n → AllShorter n ts → AllShorter (suc n) (push_first c ts)
AllShorter-push_first n c [] k h = (omega arith, tt)
AllShorter-push_first n c (t ∷ ts) k h = (omega (arith, h.0), AllShorter-suc n ts h.1)

split-AllShorter : (n c : ℕ) (t : Text) → length t < n → AllShorter n (split c t)
unfolding split
split-AllShorter n c [] h = (h, tt)
split-AllShorter zero c (b ∷ t) h = ground arith
split-AllShorter (suc n) c (b ∷ t) h = elim (Bool-cases (b == c)) [
  | inl e ↦
      rw (e, split)
        (omega arith, AllShorter-suc n (split c t) (split-AllShorter n c t (omega arith)))
  | inr e ↦
      rw (e, split)
        (AllShorter-push_first n b (split c t) (omega arith) (split-AllShorter n c t (omega arith)))
]

module _ (P : Platform) where
  -- The two parsers give the same for all texts shorter than `n`.
  abbrev Agree : ℕ → (Text → Option (Value P)) → (Text → Option (Value P)) → Type 0
  Agree n p q = (t : Text) → length t < n → p t ≡ q t

  items-Agree :
      (n : ℕ) (p q : Text → Option (Value P)) (ts : List Text)
      → Agree n p q
      → AllShorter n ts
      → items P p ts ≡ items P q ts
  unfolding items
  items-Agree n p q [] a h = refl
  items-Agree n p q (t ∷ ts) a h = ap₂ (add_item P) (a t h.0) (items-Agree n p q ts a h.1)

  fields-Agree :
      (n : ℕ) (p q : Text → Option (Value P)) (m : Dict Text)
      → Agree n p q
      → ShorterFields n m
      → fields P p m ≡ fields P q m
  unfolding fields
  fields-Agree n p q [] a h = refl
  fields-Agree n p q ((k, t) ∷ m) a h = ap₂ (add_field P k) (a t h.0) (fields-Agree n p q m a h.1)

  parse_array-Agree :
      (p q : Text → Option (Value P)) (s : Text)
      → Agree (length s) p q
      → has_prefix s (b'[' ∷ []) ≡ true
      → has_suffix s (b']' ∷ []) ≡ true
      → parse_array P p s ≡ parse_array P q s
  unfolding parse_array
  parse_array-Agree p q s a start last =
      let body = trim_bracket (cut_prefix (trim_space s) (b'[' ∷ [])) in
      ap (λ (o : Option (List (Comparable P))). elim o [ none ↦ none | some vs ↦ some (array vs) ])
        (items-Agree (length s) p q (split b',' body) a
          (split-AllShorter (length s) b',' body (body-shorter s start last)))

  parse_object-Agree :
      HasPartialFields P
      → (p q : Text → Option (Value P)) (s : Text) → Agree (length s) p q
      → parse_object P p s ≡ parse_object P q s
  unfolding parse_object
  parse_object-Agree partial p q s a = elim (Option-cases (P.json_fields s)) [
    | inl (m, e) ↦
        rw (e, parse_object)
          (ap (λ (o : Option (Fields P)). elim o [ none ↦ none | some fs ↦ some (object fs) ])
            (fields-Agree (length s) p q m a (partial s m e)))
    | inr e ↦ rw (e, parse_object) refl
  ]

  classify-Agree :
      HasPartialFields P
      → (p q : Text → Option (Value P)) (s : Text) → Agree (length s) p q
      → classify P p s ≡ classify P q s
  unfolding classify wrapped
  classify-Agree partial p q s a =
      elim (Bool-cases (has_prefix s (b'[' ∷ []) && has_suffix s (b']' ∷ []))) [
        | inl e ↦
            let (start, last) = and-true (has_prefix s (b'[' ∷ [])) (has_suffix s (b']' ∷ [])) e in
            ground (arith, parse_array-Agree p q s a start last)
        | inr e ↦ ground (arith, parse_object-Agree partial p q s a)
      ]

  parse_value_fuel-Agree :
      HasPartialFields P
      → (n m : ℕ) (s : Text) → length s < n
      → length s < m
      → parse_value_fuel P n s ≡ parse_value_fuel P m s
  unfolding parse_value_fuel
  parse_value_fuel-Agree partial zero m s h k = ground arith
  parse_value_fuel-Agree partial (suc n) zero s h k = ground arith
  parse_value_fuel-Agree partial (suc n) (suc m) [] h k = refl
  parse_value_fuel-Agree partial (suc n) (suc m) (c ∷ s) h k =
      classify-Agree partial (parse_value_fuel P n) (parse_value_fuel P m) (trim_space (c ∷ s))
        (λ t l.
          parse_value_fuel-Agree partial n m t (omega (arith, length-trim_space (c ∷ s)))
            (omega (arith, length-trim_space (c ∷ s))))

  -- `ParseValue` makes nested calls on shorter texts only: with any fuel above the length of the text
  -- the result is the same, where the JSON decoder gives each field as a part of the object's text.
  pub parse_value_fuel_enough :
      HasPartialFields P
      → (n : ℕ) (s : Text) → length s < n
      → parse_value_fuel P n s ≡ parse_value P s
  unfolding parse_value
  parse_value_fuel_enough partial n s h =
      parse_value_fuel-Agree partial n (suc (length s)) s h (omega arith)
