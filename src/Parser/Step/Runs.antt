-- ===== src/Parser/Step/Runs.antt =====
-- What a result of `parseFilterSub` may be, and the bounds on its positions and on the texts it cuts out.
use policy_conditions.Base.{
  ℕ, zero, suc, ◌+◌, ◌-◌, ◌≤◌, ◌<◌, Bool, true, false, not, ◌&&◌, ◌≡◌, refl, Option, none, some, [],
  ◌∷◌, ◌==◌, arith, if◌then◌else◌, Option-cases, inl, inr,
}
use policy_conditions.Base.Lists.{length, take, drop, slice, get_elem?}
use policy_conditions.Base.Text.{Text, to_lower}
use policy_conditions.Types.Platform.{Platform}
use policy_conditions.Types.Value.{Value}
use policy_conditions.Types.Value.Compare.{
  CompareOperator, pr, eq, ne, co, within, sw, ew, gt, lt, ge, le, is_type,
}
use policy_conditions.Types.Value.Parse.{parse_value}
use policy_conditions.Parser.Result.{Result, ok, err, no_fuel, ParseError, ◌>>=◌}
use policy_conditions.Parser.State.{
  ValuePath, operator_of, known_value, right_value, new_attribute, compared, create_expression,
}
use policy_conditions.Parser.Brackets.{
  close_bracket, close_square, Square, closed, unclosed, second,
}

abbrev pub Allowed : ParseError → Type 0
Allowed no_fuel = false ≡ true
Allowed _ = Unit

-- A result other than `no_fuel`, whose value satisfies `Q`.
abbrev pub Runs {ℓ} : {A : Type ℓ} → (A → Type 0) → Result A → Type 0
Runs Q (ok a) = Q a
Runs Q (err e) = Allowed e

abbrev pub Any {ℓ} : {A : Type ℓ} → A → Type 0
Any a = Unit

pub Runs-bind {ℓ κ} :
    {A : Type ℓ} {B : Type κ} (Q : A → Type 0) (R : B → Type 0) (m : Result A) (f : A → Result B)
    → Runs Q m
    → ((a : A) → Q a → Runs R (f a))
    → Runs R (m >>= f)
Runs-bind Q R (ok a) f h k = k a h
Runs-bind Q R (err e) f h k = h

module _ (P : Platform) where
  pub known_value-Runs : (v : Option (Value P)) → Runs Any (known_value v)
  unfolding known_value
  known_value-Runs none = tt
  known_value-Runs (some v) = tt

  pub some_value-Runs :
      (value : Text) → Runs Any (known_value (parse_value P value) >>= λ v. ok (some v))
  some_value-Runs value =
      Runs-bind Any Any (known_value (parse_value P value)) (λ v. ok (some v))
        (known_value-Runs (parse_value P value)) (λ v _. tt)

  pub right_value-Runs :
      (op : CompareOperator) (value : Text) → Runs Any (right_value {P = P} op value)
  unfolding right_value
  right_value-Runs pr value = tt
  right_value-Runs eq value = some_value-Runs value
  right_value-Runs ne value = some_value-Runs value
  right_value-Runs co value = some_value-Runs value
  right_value-Runs within value = some_value-Runs value
  right_value-Runs sw value = some_value-Runs value
  right_value-Runs ew value = some_value-Runs value
  right_value-Runs gt value = some_value-Runs value
  right_value-Runs lt value = some_value-Runs value
  right_value-Runs ge value = some_value-Runs value
  right_value-Runs le value = some_value-Runs value
  right_value-Runs is_type value = some_value-Runs value

  pub compared-Runs :
      (path value : Text) (op : CompareOperator) (v : Option (ValuePath P))
      → Runs Any (compared path op value v)
  unfolding compared new_attribute
  compared-Runs path value op none =
      Runs-bind Any Any (known_value (parse_value P path)) _ (known_value-Runs (parse_value P path))
        (λ left _.
          Runs-bind Any Any (right_value op value) _ (right_value-Runs op value) (λ right _. tt))
  compared-Runs path value op (some v) =
      Runs-bind Any Any (right_value op value) _ (right_value-Runs op value) (λ right _. tt)

  pub create_expression-Runs :
      (path cond value : Text) (v : Option (ValuePath P))
      → Runs Any (create_expression path cond value v)
  unfolding create_expression
  create_expression-Runs path cond value v = elim (Option-cases (operator_of (to_lower cond))) [
    | inl (op, e) ↦ rw (e, Runs) (compared-Runs path value op v)
    | inr e ↦ rw (e, Runs) tt
  ]

pub close_bracket-after :
    (cs : Text) (p n : ℕ) (quoted : Bool) → p ≤ (close_bracket cs p n quoted).0
unfolding close_bracket
close_bracket-after [] p n quoted = ground arith
close_bracket-after (c ∷ cs) p n quoted = ground (
  arith,
  close_bracket-after cs (p + 1)
      (if c == b'(' && not quoted then n + 1 else if c == b')' && not quoted then n - 1 else n)
      (if c == b'"' then not quoted else quoted),
)

abbrev pub After : ℕ → Square → Type 0
After p (closed q) = p ≤ q
After p _ = Unit

pub After-suc : (p : ℕ) (s : Square) → After (p + 1) s → After p s
After-suc p (closed q) h = omega arith
After-suc p unclosed h = tt
After-suc p second h = tt

pub close_square-After : (cs : Text) (p : ℕ) (quoted : Bool) → After p (close_square cs p quoted)
unfolding close_square
close_square-After [] p quoted = tt
close_square-After (c ∷ cs) p quoted =
    let rest =
      After-suc p (close_square cs (p + 1) (if c == b'"' then not quoted else quoted))
        (close_square-After cs (p + 1) (if c == b'"' then not quoted else quoted)) in
    ground arith

pub length-take : (n : ℕ) (t : Text) → length (take n t) ≤ length t
length-take zero t = omega arith
length-take (suc n) [] = omega arith
length-take (suc n) (c ∷ t) = omega (arith, length-take n t)

pub length-drop : (n : ℕ) (t : Text) → length (drop n t) ≡ length t - n
length-drop zero t = omega arith
length-drop (suc n) [] = omega arith
length-drop (suc n) (c ∷ t) = omega (arith, length-drop n t)

pub in_text : (t : Text) (n : ℕ) (c : ℕ) → get_elem? t n ≡ some c → n < length t
in_text [] n c h = cc
in_text (b ∷ t) zero c h = omega arith
in_text (b ∷ t) (suc n) c h = omega (arith, in_text t n c h)

pub past_text : (t : Text) (n : ℕ) → length t ≤ n → get_elem? t n ≡ none
past_text [] n h = refl
past_text (b ∷ t) zero h = ground arith
past_text (b ∷ t) (suc n) h = past_text t n (omega arith)

pub slice-shorter : (t : Text) (a b : ℕ) → 0 < a → 0 < length t → length (slice t a b) < length t
slice-shorter t a b h k = omega (arith, length-take (b - a) (drop a t), length-drop a t)
