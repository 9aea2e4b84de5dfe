-- ===== src/Parser/Loop/Fuel.antt =====
-- `ParseFilter` ends: each round of its loop moves on, and a nested call has a shorter text.
use mathlib.Core.Path.{subst}
use policy_conditions.Base.{
  ℕ, zero, suc, ◌+◌, ◌≤◌, ◌<◌, ltb, Bool, true, false, ◌&&◌, ◌≡◌, ◌≢◌, List, [], ◌∷◌, ◌==◌, arith,
  not, if◌then◌else◌, Option-cases, inl, inr,
}
use policy_conditions.Base.Lists.{length, get_elem?, is_empty, drop}
use policy_conditions.Base.Text.{Text, codes, has_suffix}
use policy_conditions.Types.Platform.{Platform}
use policy_conditions.Conditions.Ast.{Expression}
use policy_conditions.Parser.Result.{Result, ok, err, no_fuel}
use policy_conditions.Parser.State.{State, initial, create_expression}
use policy_conditions.Parser.Step.{case_of, joined, qualified}
use policy_conditions.Parser.Step.Runs.{Runs, Any, Runs-bind, in_text, create_expression-Runs}
use policy_conditions.Parser.Step.Moves.{Runs-if, From, Parses, case_of-Runs, combine-pos}
use policy_conditions.Parser.Loop.{
  round, loop, last_word, last_clauses, only, conclude, finish, parse_sub, parse_filter,
}

not_fuel : {A : Type 0} (r : Result A) → Runs Any r → r ≢ err no_fuel
not_fuel r h k = let bad : false ≡ true = subst (Runs Any) k h in ground arith

module _ (P : Platform) where
  round-Runs :
      (parse : Text → Text → Result (Expression P)) (text parent : Text) (c : ℕ) (s : State P)
      → Parses P text parse
      → s.pos < length text
      → Runs (From P (suc s.pos)) (round parse text parent c s)
  unfolding round
  round-Runs parse text parent c s h k =
      Runs-bind (From P s.pos) (From P (suc s.pos)) (case_of parse text parent c s) _
        (case_of-Runs P parse text parent c s h k) (λ t l. omega (arith, combine-pos P t))

  loop-Runs :
      (parse : Text → Text → Result (Expression P)) (n : ℕ) (text parent : Text) (s : State P)
      → Parses P text parse
      → length text ≤ s.pos + n
      → Runs Any (loop parse n text parent s)
  unfolding loop
  loop-Runs parse zero text parent s h k = at_end (ltb s.pos (length text)) (ground arith)
    where
      at_end : (b : Bool) → b ≡ false → Runs Any (if b then err no_fuel else ok s)
      at_end true e = ground arith
      at_end false e = tt
  loop-Runs parse (suc n) text parent s h k = elim (Option-cases (get_elem? text s.pos)) [
    | inl (c, e) ↦
        rw (e, Runs)
          (Runs-bind (From P (suc s.pos)) Any (round parse text parent c s) _
            (round-Runs parse text parent c s h (in_text text s.pos c e))
            (λ t l. loop-Runs parse n text parent t h (omega arith)))
    | inr e ↦ rw (e, Runs) tt
  ]

  last_word-Runs :
      (text parent : Text) (s : State P) (from : ℕ) → Runs Any (last_word text parent s from)
  unfolding last_word
  last_word-Runs text parent s from =
      let path = qualified parent s.attr in
      let value = drop from text in
      Runs-if Any (is_empty path) _ _ tt (
        Runs-if Any (s.is_attr && not (is_empty s.cond)) _ _
          (Runs-if Any (has_suffix value (b')' ∷ []) && s.bracket_count == 0) _ _ tt (
            Runs-bind Any Any (create_expression path s.cond value s.vpe) _
              (create_expression-Runs P path s.cond value s.vpe) (λ e _. tt)))
          (Runs-bind Any Any (create_expression path (codes "pr") [] s.vpe) _
            (create_expression-Runs P path (codes "pr") [] s.vpe) (λ e _. tt)))

  last_clauses-Runs : (text parent : Text) (s : State P) → Runs Any (last_clauses text parent s)
  unfolding last_clauses
  last_clauses-Runs text parent s = elim (Option-cases s.word) [
    | inl (from, e) ↦
        rw (e, Runs) (Runs-if Any (s.pos == length text) _ _ (last_word-Runs text parent s from) tt)
    | inr e ↦ rw (e, Runs) tt
  ]

  only-Runs : (clauses : List (Expression P)) → Runs Any (only clauses)
  unfolding only
  only-Runs [] = tt
  only-Runs (e ∷ []) = tt
  only-Runs (e ∷ f ∷ es) = tt

  conclude-Runs : (s : State P) (clauses : List (Expression P)) → Runs Any (conclude s clauses)
  unfolding conclude
  conclude-Runs s clauses =
      Runs-if Any s.is_logic _ _
        (elim (Option-cases (joined s.is_and clauses)) [
          | inl (e, h) ↦ rw (h, Runs) tt
          | inr h ↦ rw (h, Runs) (only-Runs clauses)
        ])
        (only-Runs clauses)

  finish-Runs : (text parent : Text) (s : State P) → Runs Any (finish text parent s)
  unfolding finish
  finish-Runs text parent s = Runs-if Any (ltb 0 s.bracket_count) _ _ tt (
      Runs-if Any (ltb 0 s.val_path_count) _ _ tt (
        Runs-bind Any Any (last_clauses text parent s) (conclude s)
          (last_clauses-Runs text parent s) (λ clauses _. conclude-Runs s clauses)))

  parse_sub-Runs :
      (n : ℕ) (text parent : Text) → length text < n → Runs Any (parse_sub {P = P} n text parent)
  unfolding parse_sub
  parse_sub-Runs zero text parent h = ground arith
  parse_sub-Runs (suc n) text parent h =
      Runs-bind Any Any (loop (parse_sub {P = P} n) (length text) text parent (initial P))
        (finish text parent)
        (loop-Runs (parse_sub {P = P} n) (length text) text parent (initial P)
          (λ t p k. parse_sub-Runs n t p (omega arith)) (omega arith))
        (λ s _. finish-Runs text parent s)

  -- `ParseFilter` ends on every text: the loop and the nested calls stay within their fuel.
  pub parse_filter-ends : (text : Text) → parse_filter P text ≢ err no_fuel
  unfolding parse_filter
  parse_filter-ends text =
      not_fuel (parse_filter P text) (parse_sub-Runs (suc (length text)) text [] (omega arith))
