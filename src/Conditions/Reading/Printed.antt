-- ===== src/Conditions/Reading/Printed.antt =====
-- Which trees are read back with their meaning from the text that `String` writes.
use mathlib.Core.Path.{subst}
use policy_conditions.Base.{
  Bool, true, false, ◌&&◌, ◌||◌, ◌≡◌, refl, ◌∙◌, sym, ap, Option, none, some, ◌∷◌, ◌++◌,
  append_assoc, arith,
}
use policy_conditions.Base.Text.{Text}
use policy_conditions.Types.Platform.{Platform}
use policy_conditions.Types.Value.{Value}
use policy_conditions.Types.Value.Compare.{
  CompareOperator, pr, eq, ne, within, sw, ew, gt, lt, ge, le, is_type, co,
}
use policy_conditions.Conditions.Ast.{
  LogicalOperator, both, either, Expression, logical, negation, precedence, attribute, value_path,
  attribute_string, logical_string, spaced, to_string,
}
use policy_conditions.Conditions.Meaning.{Truth, holds, combine, combine_assoc}
use policy_conditions.Conditions.Reading.{
  Part, opposite, bracketed, is_opposite, read_behind, comparison_text, Reads, single, chain,
  compared, negated, grouped, of_single, with_and, with_or,
}

-- No operator but this one stands outside brackets.
abbrev pub HasOnly : {P : Platform} → LogicalOperator → Expression P → Type 0
HasOnly both (logical both l r) = HasOnly both l × HasOnly both r
HasOnly either (logical either l r) = HasOnly either l × HasOnly either r
HasOnly both (logical either l r) = true ≡ false
HasOnly either (logical both l r) = true ≡ false
HasOnly op e = Unit

-- whether a negation stands outside brackets
abbrev pub has_not : {P : Platform} → Expression P → Bool
has_not (logical op l r) = has_not l || has_not r
has_not (negation e) = true
has_not (precedence e) = false
has_not (attribute v op w) = false
has_not (value_path a sub f op w) = false

-- whether there are brackets that are no negation's
abbrev pub has_brackets : {P : Platform} → Expression P → Bool
has_brackets (logical op l r) = has_brackets l || has_brackets r
has_brackets (negation e) = false
has_brackets (precedence e) = true
has_brackets (attribute v op w) = false
has_brackets (value_path a sub f op w) = false

-- On the right of an operator there is no other one outside brackets, and if a negation is on its left, no
-- brackets are on its right but those of a negation. There are no value paths.
abbrev pub IsReadable : {P : Platform} → Expression P → Type 0
IsReadable (logical op l r) =
    IsReadable l × IsReadable r × HasOnly op r × ((has_not l && has_brackets r) ≡ false)
IsReadable (negation e) = IsReadable e
IsReadable (precedence e) = IsReadable e
IsReadable (attribute v op w) = Unit
IsReadable (value_path a sub f op w) = true ≡ false

regroup : (p l r m : Text) → spaced (spaced p m l) m r ≡ spaced p m (spaced l m r)
regroup p l r m =
    append_assoc p (32 ∷ (m ++ (32 ∷ l))) (32 ∷ (m ++ (32 ∷ r)))
    ∙ ap (λ x. p ++ (32 ∷ x)) (append_assoc m (32 ∷ l) (32 ∷ (m ++ (32 ∷ r))))

free_left : (n b c : Bool) → (n && (b || c)) ≡ false → (n && b) ≡ false
free_left true true c h = h
free_left true false c h = refl
free_left false b c h = refl

free_right : (n l b c : Bool) → (l && c) ≡ false → (n && (b || c)) ≡ false → ((n || l) && c) ≡ false
free_right true l true c i j = ground (arith, j)
free_right true l false c i j = j
free_right false l b c i j = i

attribute_string-comparison_text :
    {P : Platform} (v : Value P) (op : CompareOperator) (w : Option (Value P))
    → comparison_text v op w ≡ attribute_string v op w
unfolding attribute_string
attribute_string-comparison_text v pr w = refl
attribute_string-comparison_text v eq none = refl
attribute_string-comparison_text v ne none = refl
attribute_string-comparison_text v co none = refl
attribute_string-comparison_text v within none = refl
attribute_string-comparison_text v sw none = refl
attribute_string-comparison_text v ew none = refl
attribute_string-comparison_text v gt none = refl
attribute_string-comparison_text v lt none = refl
attribute_string-comparison_text v ge none = refl
attribute_string-comparison_text v le none = refl
attribute_string-comparison_text v is_type none = refl
attribute_string-comparison_text v eq (some x) = refl
attribute_string-comparison_text v ne (some x) = refl
attribute_string-comparison_text v co (some x) = refl
attribute_string-comparison_text v within (some x) = refl
attribute_string-comparison_text v sw (some x) = refl
attribute_string-comparison_text v ew (some x) = refl
attribute_string-comparison_text v gt (some x) = refl
attribute_string-comparison_text v lt (some x) = refl
attribute_string-comparison_text v ge (some x) = refl
attribute_string-comparison_text v le (some x) = refl
attribute_string-comparison_text v is_type (some x) = refl

module _ {P : Platform} (ρ : Truth P) where
  same-Reads :
      {m n : Bool} {s t : Text} {a b : Bool}
      → m ≡ n
      → s ≡ t
      → a ≡ b
      → Reads ρ (chain m) s a
      → Reads ρ (chain n) t b
  same-Reads {n = n} {s = s} {t = t} {a = a} f g h d =
      subst (Reads ρ (chain n) t) h
        (subst (λ x. Reads ρ (chain n) x a) g (subst (λ x. Reads ρ (chain x) s a) f d))

  comparison-Reads :
      (v : Value P) (op : CompareOperator) (w : Option (Value P))
      → Reads ρ (single Part.comparison) (attribute_string v op w) (ρ (attribute v op w))
  comparison-Reads v op w =
      subst (λ t. Reads ρ (single Part.comparison) t (ρ (attribute v op w)))
        (attribute_string-comparison_text v op w) (compared v op w)

  joined :
      (op : LogicalOperator) (k : Part) (n : Bool) (s t : Text) (a b : Bool)
      → Reads ρ (chain n) s a
      → Reads ρ (single k) t b
      → Reads ρ
          (chain (n || is_opposite k))
          (spaced s (logical_string op) t)
          (combine op a (read_behind k n b))
  unfolding logical_string
  joined both k n s t a b d f = with_and d f
  joined either k n s t a b d f = with_or d f

  chain-regroup :
      (op : LogicalOperator) (p l r : Text) (n m k : Bool) (a b c : Bool)
      → Reads ρ
          (chain ((n || m) || k))
          (spaced (spaced p (logical_string op) l) (logical_string op) r)
          (combine op (combine op a b) c)
      → Reads ρ
          (chain (n || (m || k)))
          (spaced p (logical_string op) (spaced l (logical_string op) r))
          (combine op a (combine op b c))
  chain-regroup op p l r n m k a b c h =
      same-Reads (ground arith) (regroup p l r (logical_string op)) (sym (combine_assoc op a b c)) h

  mutual
    unfolding to_string

    tree-chain :
        (e : Expression P) → IsReadable e → Reads ρ (chain (has_not e)) (to_string e) (holds ρ e)
    tree-chain (logical op l r) (g, h, k, j) =
        after op r (to_string l) (has_not l) (holds ρ l) h k j (tree-chain l g)
    tree-chain (negation e) g = of_single (negated (tree-chain e g))
    tree-chain (precedence e) g = of_single (grouped (tree-chain e g))
    tree-chain (attribute v op w) g = of_single (comparison-Reads v op w)
    tree-chain (value_path a sub f op w) g = ground (arith, g)

    after :
        (op : LogicalOperator) (e : Expression P) (p : Text) (n : Bool) (a : Bool)
        → IsReadable e
        → HasOnly op e
        → (n && has_brackets e) ≡ false
        → Reads ρ (chain n) p a
        → Reads ρ
            (chain (n || has_not e))
            (spaced p (logical_string op) (to_string e))
            (combine op a (holds ρ e))
    after both (logical both l r) p n a (g, h, k, i) (x, y) j d =
        chain-regroup both p (to_string l) (to_string r) n (has_not l) (has_not r) a (holds ρ l)
          (holds ρ r)
          (after both r (spaced p (logical_string both) (to_string l)) (n || has_not l)
            (combine both a (holds ρ l)) h y
            (free_right n (has_not l) (has_brackets l) (has_brackets r) i j)
            (after both l p n a g x (free_left n (has_brackets l) (has_brackets r) j) d))
    after either (logical either l r) p n a (g, h, k, i) (x, y) j d =
        chain-regroup either p (to_string l) (to_string r) n (has_not l) (has_not r) a (holds ρ l)
          (holds ρ r)
          (after either r (spaced p (logical_string either) (to_string l)) (n || has_not l)
            (combine either a (holds ρ l)) h y
            (free_right n (has_not l) (has_brackets l) (has_brackets r) i j)
            (after either l p n a g x (free_left n (has_brackets l) (has_brackets r) j) d))
    after both (logical either l r) p n a g m j d = ground (arith, m)
    after either (logical both l r) p n a g m j d = ground (arith, m)
    after op (negation e) p n a g m j d = joined op opposite n p _ a _ d (negated (tree-chain e g))
    after op (precedence e) p false a g m j d =
        joined op bracketed false p _ a _ d (grouped (tree-chain e g))
    after op (precedence e) p true a g m j d = ground (arith, j)
    after op (attribute v o w) p n a g m j d =
        joined op Part.comparison n p _ a _ d (comparison-Reads v o w)
    after op (value_path x sub f o w) p n a g m j d = ground (arith, g)
