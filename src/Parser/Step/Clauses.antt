-- ===== src/Parser/Step/Clauses.antt =====
-- What a round of `parseFilterSub` adds to its clauses.
use mathlib.Core.Path.{subst}
use mathlib.Core.Option.{some-injective}
use policy_conditions.Base.{
  ℕ, ◌+◌, Bool, true, false, not, ◌&&◌, ◌||◌, ◌≡◌, refl, Option, none, some, List, [], ◌∷◌, ◌++◌,
  ◌==◌, if◌then◌else◌, Option-cases, Bool-cases, inl, inr, arith,
}
use policy_conditions.Base.Lists.{slice, is_empty, drop}
use policy_conditions.Base.Text.{Text, codes, equal_fold, has_suffix, to_lower}
use policy_conditions.Types.Platform.{Platform}
use policy_conditions.Types.Value.Compare.{CompareOperator}
use policy_conditions.Types.Value.Parse.{parse_value}
use policy_conditions.Conditions.Ast.{Expression}
use policy_conditions.Conditions.Shape.{is_logical, LeansLeft}
use policy_conditions.Parser.Result.{Result, ok, err, ◌>>=◌, missing_close_square, second_square}
use policy_conditions.Parser.State.{
  State, ValuePath, operator_of, known_value, right_value, new_attribute, compared,
  create_expression,
}
use policy_conditions.Parser.Brackets.{
  close_bracket, close_square, Square, closed, unclosed, second,
}
use policy_conditions.Parser.Step.{
  qualified, bracketed, square_value, value_path_end, word_char, open_bracket, open_square,
  end_operator, end_value, end_word, blank, letter_n, case_of, combine, joined,
}

-- The value of a result, if there is one, satisfies `Q`.
abbrev pub Yields {ℓ} : {A : Type ℓ} → (A → Type 0) → Result A → Type 0
Yields Q (ok a) = Q a
Yields Q (err e) = Unit

pub Yields-bind {ℓ κ} :
    {A : Type ℓ} {B : Type κ} (Q : A → Type 0) (R : B → Type 0) (m : Result A) (f : A → Result B)
    → Yields Q m
    → ((a : A) → Q a → Yields R (f a))
    → Yields R (m >>= f)
Yields-bind Q R (err e) f h k = tt
Yields-bind Q R (ok a) f h k = k a h

pub Yields-if {ℓ} :
    {A : Type ℓ} (Q : A → Type 0) (b : Bool) (m n : Result A)
    → Yields Q m
    → Yields Q n
    → Yields Q (if b then m else n)
Yields-if Q true m n h k = h
Yields-if Q false m n h k = k

Yields-Unit {ℓ} : {A : Type ℓ} (m : Result A) → Yields (λ _. Unit) m
Yields-Unit (ok a) = tt
Yields-Unit (err e) = tt

-- An expression that is neither `and` nor `or`.
abbrev pub IsClosed : {P : Platform} → Expression P → Type 0
IsClosed e = LeansLeft e × (is_logical e ≡ false)

abbrev pub AreClosed : {P : Platform} → List (Expression P) → Type 0
AreClosed [] = Unit
AreClosed (e ∷ es) = IsClosed e × AreClosed es

-- Only the first of the clauses may be an `and` or `or`.
abbrev pub AreClauses : {P : Platform} → List (Expression P) → Type 0
AreClauses [] = Unit
AreClauses (e ∷ es) = LeansLeft e × AreClosed es

AreClosed-append :
    {P : Platform} (es : List (Expression P)) (e : Expression P)
    → AreClosed es
    → IsClosed e
    → AreClosed (es ++ (e ∷ []))
AreClosed-append [] e h k = (k, tt)
AreClosed-append (d ∷ es) e h k = (h.0, AreClosed-append es e h.1 k)

pub AreClauses-append :
    {P : Platform} (es : List (Expression P)) (e : Expression P)
    → AreClauses es
    → IsClosed e
    → AreClauses (es ++ (e ∷ []))
AreClauses-append [] e h k = (k.0, tt)
AreClauses-append (d ∷ es) e h k = (h.0, AreClosed-append es e h.1 k)

-- the clauses of a state
abbrev pub Has : (P : Platform) → State P → Type 0
Has P s = AreClauses s.clauses

-- The expressions that `parse` returns have the shape.
abbrev pub ParsesLeft : (P : Platform) → (Text → Text → Result (Expression P)) → Type 0
ParsesLeft P parse = (t parent : Text) → Yields LeansLeft (parse t parent)

module _ (P : Platform) where
  compared-IsClosed :
      (path value : Text) (op : CompareOperator) (v : Option (ValuePath P))
      → Yields IsClosed (compared path op value v)
  unfolding compared new_attribute
  compared-IsClosed path value op none =
      Yields-bind (λ _. Unit) IsClosed (known_value (parse_value P path)) _
        (Yields-Unit (known_value (parse_value P path)))
        (λ left _.
          Yields-bind (λ _. Unit) IsClosed (right_value op value) _
            (Yields-Unit (right_value op value)) (λ right _. (tt, refl)))
  compared-IsClosed path value op (some v) =
      Yields-bind (λ _. Unit) IsClosed (right_value op value) _ (Yields-Unit (right_value op value))
        (λ right _. (tt, refl))

  pub create_expression-IsClosed :
      (path cond value : Text) (v : Option (ValuePath P))
      → Yields IsClosed (create_expression path cond value v)
  unfolding create_expression
  create_expression-IsClosed path cond value v = elim (Option-cases (operator_of (to_lower cond))) [
    | inl (op, e) ↦ rw (e, Yields) (compared-IsClosed path value op v)
    | inr e ↦ rw (e, Yields) tt
  ]

  bracketed-IsClosed :
      (is_not : Bool) (e : Expression P) → LeansLeft e → IsClosed (bracketed is_not e)
  unfolding bracketed
  bracketed-IsClosed true e h = (h, refl)
  bracketed-IsClosed false e h = (h, refl)

  open_bracket-Has :
      (parse : Text → Text → Result (Expression P)) (text parent : Text) (s : State P)
      → ParsesLeft P parse
      → Has P s
      → Yields (Has P) (open_bracket parse text parent s)
  unfolding open_bracket
  open_bracket-Has parse text parent s h k =
      let r = close_bracket (drop (s.pos + 1) text) (s.pos + 1) (s.bracket_count + 1) false in
      Yields-if (Has P) (s.is_quote || s.is_value) _ _ k (
        Yields-if (Has P) (r.1 == 0) _ _
          (Yields-bind LeansLeft (Has P) (parse (slice text (s.pos + 1) r.0) parent) _ (h _ _)
            (λ e l.
              AreClauses-append s.clauses (bracketed s.is_not e) k
                (bracketed-IsClosed s.is_not e l)))
          k)

  square_value-Has :
      (text : Text) (s : State P) (p : ℕ) → Has P s → Yields (Has P) (square_value text s p)
  unfolding square_value
  square_value-Has text s p h = Yields-if (Has P) (not s.is_attr) _ _ h (
      Yields-bind IsClosed (Has P) (create_expression s.attr s.cond (slice text s.pos (p + 1)) none)
        _ (create_expression-IsClosed s.attr s.cond (slice text s.pos (p + 1)) none)
        (λ e c. AreClauses-append s.clauses e h c))

  value_path_end-Has :
      (parse : Text → Text → Result (Expression P)) (text : Text) (s : State P) (from p : ℕ)
      → ParsesLeft P parse
      → Has P s
      → Yields (Has P) (value_path_end parse text s from p)
  unfolding value_path_end
  value_path_end-Has parse text s from p h k =
      Yields-bind LeansLeft (Has P) (parse (slice text (s.pos + 1) p) []) _ (h _ _) (λ e _. k)

  open_square-Has :
      (parse : Text → Text → Result (Expression P)) (text : Text) (s : State P)
      → ParsesLeft P parse
      → Has P s
      → Yields (Has P) (open_square parse text s)
  unfolding open_square
  open_square-Has parse text s h k =
      Yields-if (Has P) (s.is_quote || s.is_value) _ _ k
        (squared (close_square (drop (s.pos + 1) text) (s.pos + 1) false))
    where
      squared :
          (q : Square)
          → Yields (Has P) (elim q [
            | unclosed ↦ err missing_close_square
            | second ↦ err second_square
            | closed p ↦ elim s.word [
              | none ↦ square_value text s p
              | some from ↦ value_path_end parse text s from p
            ]
          ])
      squared unclosed = tt
      squared second = tt
      squared (closed p) = elim (Option-cases s.word) [
        | inl (from, e) ↦ rw (e, Yields) (value_path_end-Has parse text s from p h k)
        | inr e ↦ rw (e, Yields) (square_value-Has text s p k)
      ]

  end_operator-Has :
      (s : State P) (phrase : Text) → Has P s → Yields (Has P) (end_operator s phrase)
  unfolding end_operator
  end_operator-Has s phrase h =
      Yields-if (Has P) (equal_fold phrase (codes "pr")) _ _
        (Yields-bind IsClosed (Has P) (create_expression s.attr (codes "pr") [] s.vpe) _
          (create_expression-IsClosed s.attr (codes "pr") [] s.vpe)
          (λ e c. AreClauses-append s.clauses e h c))
        h

  end_value-Has :
      (parent : Text) (s : State P) (phrase : Text)
      → Has P s
      → Yields (Has P) (end_value parent s phrase)
  unfolding end_value
  end_value-Has parent s phrase h =
      Yields-if (Has P) (has_suffix phrase (b')' ∷ []) && s.bracket_count == 0) _ _ tt (
        Yields-bind IsClosed (Has P)
          (create_expression (qualified parent s.attr) s.cond phrase s.vpe) _
          (create_expression-IsClosed (qualified parent s.attr) s.cond phrase s.vpe)
          (λ e c. AreClauses-append s.clauses e h c))

  end_word-Has :
      (parent : Text) (s : State P) (phrase : Text)
      → Has P s
      → Yields (Has P) (end_word parent s phrase)
  unfolding end_word
  end_word-Has parent s phrase h =
      Yields-if (Has P) (equal_fold phrase (codes "or") || equal_fold phrase (codes "and")) _ _ h (
        Yields-if (Has P) (s.is_attr && is_empty s.attr) _ _ h (
          Yields-if (Has P) (s.is_expr && is_empty s.cond) _ _ (end_operator-Has s phrase h)
            (Yields-if (Has P) s.is_value _ _ (end_value-Has parent s phrase h) h)))

  blank-Has : (text parent : Text) (s : State P) → Has P s → Yields (Has P) (blank text parent s)
  unfolding blank
  blank-Has text parent s h = Yields-if (Has P) s.is_quote _ _ h (elim (Option-cases s.word) [
    | inl (from, e) ↦ rw (e, Yields) (end_word-Has parent s (slice text from s.pos) h)
    | inr e ↦ rw (e, Yields) h
  ])

  word_char-clauses : (s : State P) → (word_char s).clauses ≡ s.clauses
  unfolding word_char
  word_char-clauses s = ground arith

  letter_n-clauses : (text : Text) (s : State P) → (letter_n text s).clauses ≡ s.clauses
  unfolding letter_n
  letter_n-clauses text s = ground (arith, word_char-clauses s)

  pub case_of-Has :
      (parse : Text → Text → Result (Expression P)) (text parent : Text) (c : ℕ) (s : State P)
      → ParsesLeft P parse
      → Has P s
      → Yields (Has P) (case_of parse text parent c s)
  unfolding case_of
  case_of-Has parse text parent c s h k =
      Yields-if (Has P) (c == b'(') _ _ (open_bracket-Has parse text parent s h k) (
        Yields-if (Has P) (c == b'[') _ _ (open_square-Has parse text s h k) (
          Yields-if (Has P) (c == 32) _ _ (blank-Has text parent s k) (
            Yields-if (Has P) (c == b')') _ _
              (Yields-if (Has P) (not (s.is_quote || s.is_value) && s.bracket_count == 0) _ _ tt k)
              (Yields-if (Has P) (c == b']') _ _
                (Yields-if (Has P) (not (s.is_quote || s.is_value) && s.val_path_count == 0) _ _ tt
                  k)
                (Yields-if (Has P) (c == b'n' || c == b'N') _ _ (rw (letter_n-clauses text s) k) (
                  Yields-if (Has P) (c == b'"') _ _
                    (rw (word_char-clauses (record s { is_quote = not s.is_quote })) k)
                    (rw (word_char-clauses s) k)))))))

  pub joined-LeansLeft :
      (is_and : Bool) (es : List (Expression P)) (e : Expression P)
      → AreClauses es
      → joined is_and es ≡ some e
      → LeansLeft e
  joined-LeansLeft is_and [] e h k = cc
  joined-LeansLeft is_and (l ∷ []) e h k = cc
  joined-LeansLeft is_and (l ∷ r ∷ []) e h k =
      subst LeansLeft (some-injective _ _ k) (h.0, h.1.0.0, h.1.0.1)
  joined-LeansLeft is_and (l ∷ r ∷ x ∷ es) e h k = cc

  pub combine-Has : (s : State P) → Has P s → Has P (combine s)
  unfolding combine
  combine-Has s h = elim (Bool-cases s.is_logic) [
    | inl e ↦ elim (Option-cases (joined s.is_and s.clauses)) [
      | inl (x, k) ↦ rw (e, combine) (rw k (joined-LeansLeft s.is_and s.clauses x h k, tt))
      | inr k ↦ rw (e, combine) (rw k h)
    ]
    | inr e ↦ rw (e, combine) h
  ]
