-- ===== src/Parser/Loop.antt =====
-- `parseFilterSub` and `ParseFilter`.
pub mod Fuel
pub mod Shape
use policy_conditions.Base.{
  ℕ, zero, suc, ◌+◌, ltb, Bool, true, false, not, ◌&&◌, ◌||◌, Option, none, some, List, [], ◌∷◌,
  ◌++◌, ◌==◌, if◌then◌else◌,
}
use policy_conditions.Base.Lists.{length, is_empty, drop, get_elem?}
use policy_conditions.Base.Text.{Text, codes, has_suffix}
use policy_conditions.Types.Platform.{Platform}
use policy_conditions.Conditions.Ast.{Expression}
use policy_conditions.Parser.Result.{
  Result, ok, err, missing_open_bracket, missing_close_bracket, missing_square, incomplete,
  missing_logic, no_fuel, ◌>>=◌,
}
use policy_conditions.Parser.State.{State, initial, create_expression}
use policy_conditions.Parser.Step.{qualified, case_of, combine, joined}

module _ {P : Platform} where
  -- one round of the loop
  unfoldable pub round :
      (Text → Text → Result (Expression P)) → Text → Text → ℕ → State P → Result (State P)
  round parse text parent c s = do
    t ← case_of parse text parent c s
    let u = combine t
    ok (record u { pos = u.pos + 1 })

  -- The loop over the characters. Each round moves on, so the length of the text is enough fuel.
  unfoldable pub loop :
      (Text → Text → Result (Expression P)) → ℕ → Text → Text → State P → Result (State P)
  loop parse zero text parent s = if ltb s.pos (length text) then err no_fuel else ok s
  loop parse (suc n) text parent s = elim (get_elem? text s.pos) [
    | none ↦ ok s
    | some c ↦ round parse text parent c s >>= λ t. loop parse n text parent t
  ]

  -- the last word, where the text ends in one
  unfoldable last_word : Text → Text → State P → ℕ → Result (List (Expression P))
  last_word text parent s from =
      let path = qualified parent s.attr in
      let value = drop from text in
      if is_empty path
      then err incomplete
      else if s.is_attr && not (is_empty s.cond)
      then (if has_suffix value (b')' ∷ []) && s.bracket_count == 0
          then err missing_open_bracket
          else (do e ← create_expression path s.cond value s.vpe; ok (s.clauses ++ (e ∷ []))))
      else (do e ← create_expression path (codes "pr") [] s.vpe; ok (s.clauses ++ (e ∷ [])))

  unfoldable last_clauses : Text → Text → State P → Result (List (Expression P))
  unfolding last_word
  last_clauses text parent s = elim s.word [
    | none ↦ ok s.clauses
    | some from ↦ if s.pos == length text then last_word text parent s from else ok s.clauses
  ]

  unfoldable only : List (Expression P) → Result (Expression P)
  only (e ∷ []) = ok e
  only _ = err missing_logic

  unfoldable conclude : State P → List (Expression P) → Result (Expression P)
  unfolding only
  conclude s clauses =
      if s.is_logic
      then elim (joined s.is_and clauses) [ none ↦ only clauses | some e ↦ ok e ]
      else only clauses

  -- what stands behind the loop
  unfoldable pub finish : Text → Text → State P → Result (Expression P)
  unfolding last_clauses conclude
  finish text parent s =
      if ltb 0 s.bracket_count
      then err missing_close_bracket
      else if ltb 0 s.val_path_count
      then err missing_square
      else last_clauses text parent s >>= conclude s

  -- `parseFilterSub` on fuel, a unit for each level of nested calls
  unfoldable pub parse_sub : ℕ → Text → Text → Result (Expression P)
  unfolding loop finish round
  parse_sub zero text parent = err no_fuel
  parse_sub (suc n) text parent =
      loop (parse_sub n) (length text) text parent (initial P) >>= finish text parent

-- `ParseFilter`. A nested call has a shorter text, so the length is enough fuel.
unfoldable pub parse_filter : (P : Platform) → Text → Result (Expression P)
unfolding parse_sub
parse_filter P text = parse_sub (suc (length text)) text []
