-- ===== src/Parser/Step.antt =====
-- The cases of the loop of `parseFilterSub`, one character each.
pub mod Runs
pub mod Moves
pub mod Clauses
use policy_conditions.Base.{
  ℕ, suc, ◌+◌, ◌-◌, ltb, Bool, true, false, not, ◌&&◌, ◌||◌, Option, none, some, List, [], ◌∷◌,
  ◌++◌, ◌==◌, if◌then◌else◌,
}
use policy_conditions.Base.Lists.{length, is_empty, take, drop, slice, get_elem?}
use policy_conditions.Base.Text.{Text, codes, equal_fold, has_suffix}
use policy_conditions.Types.Entity.{parse_entity}
use policy_conditions.Types.Platform.{Platform}
use policy_conditions.Conditions.Ast.{
  Expression, LogicalOperator, both, either, logical, negation, precedence,
}
use policy_conditions.Parser.Result.{
  Result, ok, err, missing_open_bracket, second_square, missing_close_square, missing_open_square,
  ◌>>=◌,
}
use policy_conditions.Parser.State.{ValuePath, State, create_expression}
use policy_conditions.Parser.Brackets.{
  close_bracket, Square, closed, unclosed, second, close_square, word_length,
}

-- `filterAttr`
abbrev pub qualified : Text → Text → Text
qualified parent attr = if is_empty parent then attr else parent ++ (b'.' ∷ attr)

-- the sub-attribute behind a value path, and the position of its last character
unfoldable sub_attribute : Text → ℕ → ℕ × Option Text
sub_attribute text p = elim (get_elem? text (p + 1)) [
  | none ↦ (p, none)
  | some c ↦
      let n = word_length (drop (p + 2) text) in
      if c == b'.' then (p + 1 + n, some (slice text (p + 2) (p + 2 + n))) else (p, none)
]

abbrev pub logical_of : Bool → LogicalOperator
logical_of is_and = if is_and then both else either

module _ {P : Platform} where
  -- behind a complete comparison
  abbrev pub add_clause : State P → Expression P → State P
  add_clause s e = record s {
    attr = [];
    is_attr = false;
    cond = [];
    is_expr = false;
    is_value = false;
    clauses = s.clauses ++ (e ∷ []);
  }

  -- The start of a word, and what it is a part of: an attribute, an operator or a value.
  unfoldable pub word_char : State P → State P
  word_char s =
      let started : Option ℕ = elim s.word [ none ↦ some s.pos | some i ↦ some i ] in
      if not s.is_attr
      then record s { word = started; is_attr = true }
      else if not s.is_expr && not (is_empty s.attr)
      then record s { word = started; is_expr = true }
      else if not s.is_value && not (is_empty s.cond)
      then record s { word = started; is_value = true }
      else record s { word = started }

  unfoldable bracketed : Bool → Expression P → Expression P
  bracketed is_not e = if is_not then negation e else precedence e

  -- `case '('`; `parse` is the recursive call.
  unfoldable pub open_bracket :
      (Text → Text → Result (Expression P)) → Text → Text → State P → Result (State P)
  unfolding bracketed
  open_bracket parse text parent s =
      if s.is_quote || s.is_value
      then ok s
      else let (p, n) =
          close_bracket (drop (s.pos + 1) text) (s.pos + 1) (s.bracket_count + 1) false in
        if n == 0
        then (do
          e ← parse (slice text (s.pos + 1) p) parent
          ok (record s {
            pos = p;
            bracket_count = 0;
            clauses = s.clauses ++ (bracketed s.is_not e ∷ []);
          }))
        else ok (record s { pos = p; bracket_count = n })

  -- a bracketed list or name that no word stands before
  unfoldable square_value : Text → State P → ℕ → Result (State P)
  square_value text s p =
      let value = slice text s.pos (p + 1) in
      if not s.is_attr then ok (record s { pos = p + 1; is_attr = true; attr = value }) else (do
        e ← create_expression s.attr s.cond value none
        ok (add_clause (record s { pos = p + 1; word = some (p + 1) }) e))

  unfoldable value_path_end :
      (Text → Text → Result (Expression P)) → Text → State P → ℕ → ℕ → Result (State P)
  unfolding sub_attribute
  value_path_end parse text s from p = do
    let name = slice text from s.pos
    filter ← parse (slice text (s.pos + 1) p) []
    let (last, sub) = sub_attribute text p
    ok (record s {
      pos = last;
      vpe = some (record { main = parse_entity name; sub = sub; filter = filter });
      attr = name;
      word = none;
      is_attr = true;
    })

  -- `case '['`
  unfoldable pub open_square :
      (Text → Text → Result (Expression P)) → Text → State P → Result (State P)
  unfolding square_value value_path_end
  open_square parse text s =
      if s.is_quote || s.is_value
      then ok s
      else elim (close_square (drop (s.pos + 1) text) (s.pos + 1) false) [
        | unclosed ↦ err missing_close_square
        | second ↦ err second_square
        | closed p ↦ elim s.word [
          | none ↦ square_value text s p
          | some from ↦ value_path_end parse text s from p
        ]
      ]

  -- the end of an operator
  unfoldable end_operator : State P → Text → Result (State P)
  end_operator s phrase =
      if equal_fold phrase (codes "pr")
      then (do
        e ← create_expression s.attr (codes "pr") [] s.vpe
        ok (add_clause (record s { word = none }) e))
      else ok (record s { cond = phrase; word = none })

  -- the end of a value
  unfoldable end_value : Text → State P → Text → Result (State P)
  end_value parent s phrase =
      if has_suffix phrase (b')' ∷ []) && s.bracket_count == 0
      then err missing_open_bracket
      else (do
        e ← create_expression (qualified parent s.attr) s.cond phrase s.vpe
        ok (add_clause (record s { word = none; vpe = none }) e))

  unfoldable end_word : Text → State P → Text → Result (State P)
  unfolding end_operator end_value
  end_word parent s phrase =
      if equal_fold phrase (codes "or") || equal_fold phrase (codes "and")
      then ok (record s { is_logic = true; is_and = equal_fold phrase (codes "and"); word = none })
      else if s.is_attr && is_empty s.attr
      then ok (record s { attr = phrase; word = none })
      else if s.is_expr && is_empty s.cond
      then end_operator s phrase
      else if s.is_value
      then end_value parent s phrase
      else ok s

  -- `case ' '`
  unfoldable pub blank : Text → Text → State P → Result (State P)
  unfolding end_word
  blank text parent s =
      if s.is_quote
      then ok s
      else elim s.word [ none ↦ ok s | some from ↦ end_word parent s (slice text from s.pos) ]

  -- `case 'n', 'N'`
  unfoldable pub letter_n : Text → State P → State P
  unfolding word_char
  letter_n text s =
      if not s.is_value
        && (ltb (s.pos + 3) (length text)
            && equal_fold (slice text s.pos (s.pos + 3)) (codes "not"))
      then record s { is_not = true; pos = s.pos + 2 }
      else word_char s

  -- the `switch` of the loop
  unfoldable pub case_of :
      (Text → Text → Result (Expression P)) → Text → Text → ℕ → State P → Result (State P)
  unfolding open_bracket open_square blank letter_n
  case_of parse text parent c s =
      if c == b'('
      then open_bracket parse text parent s
      else if c == b'['
      then open_square parse text s
      else if c == 32
      then blank text parent s
      else if c == b')'
      then (if not (s.is_quote || s.is_value) && s.bracket_count == 0
          then err missing_open_bracket
          else ok s)
      else if c == b']'
      then (if not (s.is_quote || s.is_value) && s.val_path_count == 0
          then err missing_open_square
          else ok s)
      else if c == b'n' || c == b'N'
      then ok (letter_n text s)
      else if c == b'"'
      then ok (word_char (record s { is_quote = not s.is_quote }))
      else ok (word_char s)

  abbrev pub joined : Bool → List (Expression P) → Option (Expression P)
  joined is_and (l ∷ r ∷ []) = some (logical (logical_of is_and) l r)
  joined is_and _ = none

  -- "combine logic here"
  unfoldable pub combine : State P → State P
  combine s =
      if s.is_logic
      then elim (joined s.is_and s.clauses) [
        | none ↦ s
        | some e ↦ record s { clauses = e ∷ []; is_logic = false }
      ]
      else s
