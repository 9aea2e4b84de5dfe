-- ===== src/Gcp/Cel/Total.antt =====
-- The mapper to CEL gives a text or an error.
use policy_conditions.Base.{
  Bool, true, false, not, ◌≡◌, refl, some, and-true, arith, Bool-cases, inl, inr, ◌⊎◌,
}
use policy_conditions.Base.Text.{Text}
use policy_conditions.Base.Except.{raise, done}
use policy_conditions.Types.Platform.{Platform}
use policy_conditions.Conditions.Ast.{
  Expression, logical, negation, precedence, attribute, value_path,
}
use policy_conditions.Conditions.Walk.{AttributeMap}
use policy_conditions.Gcp.Cel.{
  is_double, map_filter_not, map_filter_precedence, map_filter_logical, map_filter_attr_expr,
  map_filter_internal, check_compatibility, map_filter, value_path_unsupported,
}

module _ {P : Platform} (n : AttributeMap) where
  internal-written :
      (child : Bool) (e : Expression P)
      → check_compatibility e ≡ true
      → (t : Text) × (map_filter_internal n child e ≡ some t)
  unfolding map_filter_internal check_compatibility
  internal-written child (logical op l r) c =
      let (p, q) = and-true (check_compatibility l) (check_compatibility r) c in
      let child' = not (is_double op l) in
      let (s, h) = internal-written child' l p in
      let (t, k) = internal-written child' r q in
      (map_filter_logical op child s t, rw h (rw k refl))
  internal-written child (negation e) c =
      let (t, h) = internal-written false e c in (map_filter_not e t, rw h refl)
  internal-written child (precedence e) c =
      let (t, h) = internal-written false e c in (map_filter_precedence e t, rw h refl)
  internal-written child (attribute v op w) c = (map_filter_attr_expr n v op w, refl)
  internal-written child (value_path a sub f op w) c = ground arith

  -- `MapFilter` never panics: it gives a text where the tree has no value path, and an error where it
  -- has one.
  pub map_filter-total :
      (e : Expression P)
      → ((check_compatibility e ≡ true) × (t : Text) × (map_filter n e ≡ some (done t)))
        ⊎ ((check_compatibility e ≡ false) × (map_filter n e ≡ some (raise value_path_unsupported)))
  unfolding map_filter
  map_filter-total e = elim (Bool-cases (check_compatibility e)) [
    | inl c ↦ let (t, h) = internal-written false e c in inl (c, t, rw c (rw h refl))
    | inr c ↦ inr (c, rw c refl)
  ]
