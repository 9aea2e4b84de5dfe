-- ===== src/Parser/Loop/Shape.antt =====
-- The trees that `ParseFilter` makes lean left.
use mathlib.Core.Path.{subst}
use policy_conditions.Base.{
  ℕ, zero, suc, ltb, not, ◌&&◌, ◌≡◌, List, [], ◌∷◌, ◌==◌, Option-cases, inl, inr,
}
use policy_conditions.Base.Lists.{length, get_elem?, is_empty, drop}
use policy_conditions.Base.Text.{Text, codes, has_suffix}
use policy_conditions.Types.Platform.{Platform}
use policy_conditions.Conditions.Ast.{Expression}
use policy_conditions.Conditions.Shape.{LeansLeft}
use policy_conditions.Parser.Result.{Result, ok}
use policy_conditions.Parser.State.{State, initial, create_expression}
use policy_conditions.Parser.Step.{case_of, joined, qualified}
use policy_conditions.Parser.Step.Clauses.{
  Yields, Yields-bind, Yields-if, IsClosed, AreClauses, AreClauses-append, Has, ParsesLeft,
  case_of-Has, combine-Has, joined-LeansLeft, create_expression-IsClosed,
}
use policy_conditions.Parser.Loop.{
  round, loop, last_word, last_clauses, only, conclude, finish, parse_sub, parse_filter,
}

module _ (P : Platform) where
  round-Has :
      (parse : Text → Text → Result (Expression P)) (text parent : Text) (c : ℕ) (s : State P)
      → ParsesLeft P parse
      → Has P s
      → Yields (Has P) (round parse text parent c s)
  unfolding round
  round-Has parse text parent c s h k =
      Yields-bind (Has P) (Has P) (case_of parse text parent c s) _
        (case_of-Has P parse text parent c s h k) (λ t l. combine-Has P t l)

  loop-Has :
      (parse : Text → Text → Result (Expression P)) (n : ℕ) (text parent : Text) (s : State P)
      → ParsesLeft P parse
      → Has P s
      → Yields (Has P) (loop parse n text parent s)
  unfolding loop
  loop-Has parse zero text parent s h k = Yields-if (Has P) (ltb s.pos (length text)) _ _ tt k
  loop-Has parse (suc n) text parent s h k = elim (Option-cases (get_elem? text s.pos)) [
    | inl (c, e) ↦
        rw (e, Yields)
          (Yields-bind (Has P) (Has P) (round parse text parent c s) _
            (round-Has parse text parent c s h k) (λ t l. loop-Has parse n text parent t h l))
    | inr e ↦ rw (e, Yields) k
  ]

  last_word-AreClauses :
      (text parent : Text) (s : State P) (from : ℕ)
      → Has P s
      → Yields AreClauses (last_word text parent s from)
  unfolding last_word
  last_word-AreClauses text parent s from h =
      let path = qualified parent s.attr in
      let value = drop from text in
      Yields-if AreClauses (is_empty path) _ _ tt (
        Yields-if AreClauses (s.is_attr && not (is_empty s.cond)) _ _
          (Yields-if AreClauses (has_suffix value (b')' ∷ []) && s.bracket_count == 0) _ _ tt (
            Yields-bind IsClosed AreClauses (create_expression path s.cond value s.vpe) _
              (create_expression-IsClosed P path s.cond value s.vpe)
              (λ e c. AreClauses-append s.clauses e h c)))
          (Yields-bind IsClosed AreClauses (create_expression path (codes "pr") [] s.vpe) _
            (create_expression-IsClosed P path (codes "pr") [] s.vpe)
            (λ e c. AreClauses-append s.clauses e h c)))

  last_clauses-AreClauses :
      (text parent : Text) (s : State P) → Has P s → Yields AreClauses (last_clauses text parent s)
  unfolding last_clauses
  last_clauses-AreClauses text parent s h = elim (Option-cases s.word) [
    | inl (from, e) ↦
        rw (e, Yields)
          (Yields-if AreClauses (s.pos == length text) _ _
            (last_word-AreClauses text parent s from h) h)
    | inr e ↦ rw (e, Yields) h
  ]

  only-LeansLeft : (es : List (Expression P)) → AreClauses es → Yields LeansLeft (only es)
  unfolding only
  only-LeansLeft [] h = tt
  only-LeansLeft (e ∷ []) h = h.0
  only-LeansLeft (e ∷ f ∷ es) h = tt

  conclude-LeansLeft :
      (s : State P) (es : List (Expression P)) → AreClauses es → Yields LeansLeft (conclude s es)
  unfolding conclude
  conclude-LeansLeft s es h =
      Yields-if LeansLeft s.is_logic _ _
        (elim (Option-cases (joined s.is_and es)) [
          | inl (e, k) ↦ rw (k, Yields) (joined-LeansLeft P s.is_and es e h k)
          | inr k ↦ rw (k, Yields) (only-LeansLeft es h)
        ])
        (only-LeansLeft es h)

  finish-LeansLeft :
      (text parent : Text) (s : State P) → Has P s → Yields LeansLeft (finish text parent s)
  unfolding finish
  finish-LeansLeft text parent s h = Yields-if LeansLeft (ltb 0 s.bracket_count) _ _ tt (
      Yields-if LeansLeft (ltb 0 s.val_path_count) _ _ tt (
        Yields-bind AreClauses LeansLeft (last_clauses text parent s) (conclude s)
          (last_clauses-AreClauses text parent s h) (λ es c. conclude-LeansLeft s es c)))

  parse_sub-LeansLeft :
      (n : ℕ) (text parent : Text) → Yields LeansLeft (parse_sub {P = P} n text parent)
  unfolding parse_sub
  parse_sub-LeansLeft zero text parent = tt
  parse_sub-LeansLeft (suc n) text parent =
      Yields-bind (Has P) LeansLeft
        (loop (parse_sub {P = P} n) (length text) text parent (initial P)) (finish text parent)
        (loop-Has (parse_sub {P = P} n) (length text) text parent (initial P)
          (parse_sub-LeansLeft n) tt)
        (λ s h. finish-LeansLeft text parent s h)

  -- In every tree that `ParseFilter` makes, the right side of each `and` and `or` is a comparison, a
  -- `not` or an expression in brackets, never an `and` or `or` itself.
  pub parse_filter-LeansLeft :
      (text : Text) {e : Expression P} → parse_filter P text ≡ ok e → LeansLeft e
  unfolding parse_filter
  parse_filter-LeansLeft text h =
      subst (Yields LeansLeft) h (parse_sub-LeansLeft (suc (length text)) text [])
