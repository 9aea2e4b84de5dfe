-- ===== src/Parser/Step/Moves.antt =====
-- Where a round of the loop of `parseFilterSub` leaves the position.
use policy_conditions.Base.{
  ℕ, ◌+◌, ◌≤◌, ◌<◌, Bool, true, false, not, ◌&&◌, ◌||◌, ◌≡◌, none, some, [], ◌∷◌, ◌==◌, arith,
  if◌then◌else◌, Option-cases, inl, inr,
}
use policy_conditions.Base.Lists.{length, drop, slice, get_elem?, is_empty}
use policy_conditions.Base.Text.{Text, codes, equal_fold, has_suffix}
use policy_conditions.Types.Platform.{Platform}
use policy_conditions.Conditions.Ast.{Expression}
use policy_conditions.Parser.Result.{Result, err, missing_close_square, second_square}
use policy_conditions.Parser.State.{State, create_expression}
use policy_conditions.Parser.Brackets.{
  close_bracket, close_square, Square, closed, unclosed, second,
}
use policy_conditions.Parser.Step.{
  qualified, sub_attribute, square_value, value_path_end, word_char, open_bracket, open_square,
  end_operator, end_value, end_word, blank, letter_n, case_of, combine, joined,
}
use policy_conditions.Parser.Step.Runs.{
  Runs, Any, Runs-bind, create_expression-Runs, close_bracket-after, After, close_square-After,
  slice-shorter,
}

-- The position is `m` at least.
abbrev pub From : (P : Platform) → ℕ → State P → Type 0
From P m s = m ≤ s.pos

-- `parse` ends on all texts that are shorter than `text`.
abbrev pub Parses : (P : Platform) → Text → (Text → Text → Result (Expression P)) → Type 0
Parses P text parse = (t parent : Text) → length t < length text → Runs Any (parse t parent)

pub Runs-if :
    {A : Type 0} (Q : A → Type 0) (b : Bool) (m n : Result A)
    → Runs Q m
    → Runs Q n
    → Runs Q (if b then m else n)
Runs-if Q true m n h k = h
Runs-if Q false m n h k = k

sub_attribute-after : (text : Text) (p : ℕ) → p ≤ (sub_attribute text p).0
unfolding sub_attribute
sub_attribute-after text p = elim (Option-cases (get_elem? text (p + 1))) [
  | inl (c, e) ↦ rw (e, sub_attribute) (ground arith)
  | inr e ↦ rw (e, sub_attribute) (ground arith)
]

module _ (P : Platform) where
  word_char-pos : (s : State P) → (word_char s).pos ≡ s.pos
  unfolding word_char
  word_char-pos s = ground arith

  pub combine-pos : (s : State P) → (combine s).pos ≡ s.pos
  unfolding combine
  combine-pos s = elim (Option-cases (joined s.is_and s.clauses)) [
    | inl (e, h) ↦ ground (arith, h)
    | inr h ↦ ground (arith, h)
  ]

  open_bracket-Runs :
      (parse : Text → Text → Result (Expression P)) (text parent : Text) (s : State P)
      → Parses P text parse
      → s.pos < length text
      → Runs (From P s.pos) (open_bracket parse text parent s)
  unfolding open_bracket
  open_bracket-Runs parse text parent s h k =
      let r = close_bracket (drop (s.pos + 1) text) (s.pos + 1) (s.bracket_count + 1) false in
      let later =
        close_bracket-after (drop (s.pos + 1) text) (s.pos + 1) (s.bracket_count + 1) false in
      Runs-if (From P s.pos) (s.is_quote || s.is_value) _ _ (omega arith) (
        Runs-if (From P s.pos) (r.1 == 0) _ _
          (Runs-bind Any (From P s.pos) (parse (slice text (s.pos + 1) r.0) parent) _
            (h _ _ (slice-shorter text (s.pos + 1) r.0 (omega arith) (omega arith)))
            (λ e _. omega (arith, later)))
          (omega (arith, later)))

  square_value-Runs :
      (text : Text) (s : State P) (p : ℕ) → s.pos ≤ p → Runs (From P s.pos) (square_value text s p)
  unfolding square_value
  square_value-Runs text s p h = Runs-if (From P s.pos) (not s.is_attr) _ _ (omega arith) (
      Runs-bind Any (From P s.pos) (create_expression s.attr s.cond (slice text s.pos (p + 1)) none)
        _ (create_expression-Runs P s.attr s.cond (slice text s.pos (p + 1)) none)
        (λ e _. omega arith))

  value_path_end-Runs :
      (parse : Text → Text → Result (Expression P)) (text : Text) (s : State P) (from p : ℕ)
      → Parses P text parse
      → s.pos < length text
      → s.pos ≤ p
      → Runs (From P s.pos) (value_path_end parse text s from p)
  unfolding value_path_end
  value_path_end-Runs parse text s from p h k l =
      Runs-bind Any (From P s.pos) (parse (slice text (s.pos + 1) p) []) _
        (h _ _ (slice-shorter text (s.pos + 1) p (omega arith) (omega arith)))
        (λ e _. omega (arith, sub_attribute-after text p))

  open_square-Runs :
      (parse : Text → Text → Result (Expression P)) (text : Text) (s : State P)
      → Parses P text parse
      → s.pos < length text
      → Runs (From P s.pos) (open_square parse text s)
  unfolding open_square
  open_square-Runs parse text s h k =
      Runs-if (From P s.pos) (s.is_quote || s.is_value) _ _ (omega arith) (
        squared (close_square (drop (s.pos + 1) text) (s.pos + 1) false)
          (close_square-After (drop (s.pos + 1) text) (s.pos + 1) false))
    where
      squared :
          (q : Square)
          → After (s.pos + 1) q
          → Runs (From P s.pos) (elim q [
            | unclosed ↦ err missing_close_square
            | second ↦ err second_square
            | closed p ↦ elim s.word [
              | none ↦ square_value text s p
              | some from ↦ value_path_end parse text s from p
            ]
          ])
      squared unclosed a = tt
      squared second a = tt
      squared (closed p) a = elim (Option-cases s.word) [
        | inl (from, e) ↦ rw (e, Runs) (value_path_end-Runs parse text s from p h k (omega arith))
        | inr e ↦ rw (e, Runs) (square_value-Runs text s p (omega arith))
      ]

  end_operator-Runs : (s : State P) (phrase : Text) → Runs (From P s.pos) (end_operator s phrase)
  unfolding end_operator
  end_operator-Runs s phrase =
      Runs-if (From P s.pos) (equal_fold phrase (codes "pr")) _ _
        (Runs-bind Any (From P s.pos) (create_expression s.attr (codes "pr") [] s.vpe) _
          (create_expression-Runs P s.attr (codes "pr") [] s.vpe) (λ e _. omega arith))
        (omega arith)

  end_value-Runs :
      (parent : Text) (s : State P) (phrase : Text)
      → Runs (From P s.pos) (end_value parent s phrase)
  unfolding end_value
  end_value-Runs parent s phrase =
      Runs-if (From P s.pos) (has_suffix phrase (b')' ∷ []) && s.bracket_count == 0) _ _ tt (
        Runs-bind Any (From P s.pos)
          (create_expression (qualified parent s.attr) s.cond phrase s.vpe) _
          (create_expression-Runs P (qualified parent s.attr) s.cond phrase s.vpe)
          (λ e _. omega arith))

  end_word-Runs :
      (parent : Text) (s : State P) (phrase : Text) → Runs (From P s.pos) (end_word parent s phrase)
  unfolding end_word
  end_word-Runs parent s phrase =
      Runs-if (From P s.pos) (equal_fold phrase (codes "or") || equal_fold phrase (codes "and")) _ _
        (omega arith)
        (Runs-if (From P s.pos) (s.is_attr && is_empty s.attr) _ _ (omega arith) (
          Runs-if (From P s.pos) (s.is_expr && is_empty s.cond) _ _ (end_operator-Runs s phrase)
            (Runs-if (From P s.pos) s.is_value _ _ (end_value-Runs parent s phrase) (omega arith))))

  blank-Runs : (text parent : Text) (s : State P) → Runs (From P s.pos) (blank text parent s)
  unfolding blank
  blank-Runs text parent s =
      Runs-if (From P s.pos) s.is_quote _ _ (omega arith) (elim (Option-cases s.word) [
        | inl (from, e) ↦ rw (e, Runs) (end_word-Runs parent s (slice text from s.pos))
        | inr e ↦ rw (e, Runs) (omega arith)
      ])

  letter_n-pos : (text : Text) (s : State P) → s.pos ≤ (letter_n text s).pos
  unfolding letter_n
  letter_n-pos text s = ground (arith, word_char-pos s)

  pub case_of-Runs :
      (parse : Text → Text → Result (Expression P)) (text parent : Text) (c : ℕ) (s : State P)
      → Parses P text parse
      → s.pos < length text
      → Runs (From P s.pos) (case_of parse text parent c s)
  unfolding case_of
  case_of-Runs parse text parent c s h k =
      Runs-if (From P s.pos) (c == b'(') _ _ (open_bracket-Runs parse text parent s h k) (
        Runs-if (From P s.pos) (c == b'[') _ _ (open_square-Runs parse text s h k) (
          Runs-if (From P s.pos) (c == 32) _ _ (blank-Runs text parent s) (
            Runs-if (From P s.pos) (c == b')') _ _
              (Runs-if (From P s.pos) (not (s.is_quote || s.is_value) && s.bracket_count == 0) _ _
                tt (omega arith))
              (Runs-if (From P s.pos) (c == b']') _ _
                (Runs-if (From P s.pos) (not (s.is_quote || s.is_value) && s.val_path_count == 0) _
                  _ tt (omega arith))
                (Runs-if (From P s.pos) (c == b'n' || c == b'N') _ _ (letter_n-pos text s) (
                  Runs-if (From P s.pos) (c == b'"') _ _
                    (omega (arith, word_char-pos (record s { is_quote = not s.is_quote })))
                    (omega (arith, word_char-pos s))))))))
