-- ===== src/Cedar/Conditions/Panics.antt =====
-- Trees that the mapper to Cedar has no text for.
use policy_conditions.Base.{Bool, ◌≡◌, refl, Option, none}
use policy_conditions.Base.Text.{Text}
use policy_conditions.Types.Platform.{Platform}
use policy_conditions.Conditions.Ast.{both, either, Expression, logical}
use policy_conditions.Conditions.Walk.{AttributeMap}
use policy_conditions.Cedar.Conditions
use policy_conditions.Cedar.Conditions.{Flat, Flats, multi, nil, cons}

module _ {P : Platform} (unquote decimal : Text → Option Text) (n : AttributeMap) where
  joined_inner-multi :
      (gs fs : Flats P)
      → Conditions.joined_inner unquote decimal n (cons (multi either gs) fs) ≡ none
  unfolding Conditions.joined_inner Conditions.inner_clause
  joined_inner-multi gs nil = refl
  joined_inner-multi gs (cons f fs) = refl

  joined_parts-none :
      (f : Flat P) (fs : Flats P)
      → Conditions.or_part unquote decimal n f ≡ none
      → Conditions.joined_parts unquote decimal n (cons f fs) ≡ none
  unfolding Conditions.joined_parts
  joined_parts-none f nil h = h
  joined_parts-none f (cons g fs) h = rw h refl

  -- An `or` inside an `and` inside an `or`, which is how a rule a or b and c or d is read, makes the mapper
  -- panic, whatever the four parts and the action.
  pub top_clauses-or_and_or :
      (a b c d : Expression P) (is_unless : Bool)
      → Conditions.top_clauses unquote decimal n
          (logical either (logical both (logical either a b) c) d)
          is_unless
        ≡ none
  unfolding Conditions.top_clauses Conditions.check_and_flatten Conditions.map_flattened_clause
      Conditions.flat_side Conditions.or_part
  top_clauses-or_and_or a b c d is_unless =
      let inner =
        Conditions.join_flats (Conditions.flat_side either a) (Conditions.flat_side either b) in
      let rest = Conditions.flat_side both c in
      rw
        (joined_parts-none (multi both (cons (multi either inner) rest))
          (Conditions.flat_side either d) (rw (joined_inner-multi inner rest) refl))
        refl
