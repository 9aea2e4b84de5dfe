-- ===== src/Conditions/Walk/Names.antt =====
-- What `NewNameMapper` maps there and back.
use policy_conditions.Base.{
  Bool, false, ◌≡◌, refl, ap, ◌∙◌, some, [], ◌∷◌, arith, Bool-cases, inl, inr,
}
use policy_conditions.Base.Lists.{any}
use policy_conditions.Base.Text.{Text, to_lower, lower, text_eq, text_eq_iff, text_eq_refl}
use policy_conditions.Base.Dict
use policy_conditions.Base.Dict.{Dict, get-put, get-nil}
use policy_conditions.Conditions.Walk.{
  AttributeMap, add_names, new_name_mapper, or_else, get_provider_attribute_name,
  get_hexa_filter_attribute_path,
}

abbrev pub key_in : Text → Dict Text → Bool
key_in x = any (λ (k, v). text_eq (to_lower k) x)

abbrev pub value_in : Text → Dict Text → Bool
value_in x = any (λ (k, v). text_eq (to_lower v) x)

-- No two names are the same up to case, on either side, and the provider's names are in lower case.
abbrev pub IsInjective : Dict Text → Type 0
IsInjective [] = Unit
IsInjective ((k, v) ∷ m) =
    (key_in (to_lower k) m ≡ false) × (value_in v m ≡ false) × (to_lower v ≡ v) × IsInjective m

add_names-forward :
    (n : AttributeMap) (m : Dict Text) (x : Text)
    → key_in x m ≡ false
    → Dict.get x (add_names n m).forward ≡ Dict.get x n.forward
unfolding add_names
add_names-forward n [] x h = refl
add_names-forward n ((k, v) ∷ m) x h =
    add_names-forward
      (record n {
        forward = Dict.put (to_lower k) v n.forward;
        reverse = Dict.put (to_lower v) k n.reverse;
      })
      m x (ground arith)
    ∙ ground (arith, get-put (to_lower k) x v n.forward)

add_names-reverse :
    (n : AttributeMap) (m : Dict Text) (x : Text)
    → value_in x m ≡ false
    → Dict.get x (add_names n m).reverse ≡ Dict.get x n.reverse
unfolding add_names
add_names-reverse n [] x h = refl
add_names-reverse n ((k, v) ∷ m) x h =
    add_names-reverse
      (record n {
        forward = Dict.put (to_lower k) v n.forward;
        reverse = Dict.put (to_lower v) k n.reverse;
      })
      m x (ground arith)
    ∙ ground (arith, get-put (to_lower v) x k n.reverse)

-- each of the names, and its provider's name, in the two tables
add_names-get :
    (n : AttributeMap) (m : Dict Text) (k v : Text)
    → IsInjective m
    → Dict.get k m ≡ some v
    → (Dict.get (to_lower k) (add_names n m).forward ≡ some v)
      × (Dict.get v (add_names n m).reverse ≡ some k)
unfolding add_names Dict.get
add_names-get n [] k v i h = ground arith
add_names-get n ((j, w) ∷ m) k v (fresh, other, low, i) h =
    let n' = record n {
      forward = Dict.put (to_lower j) w n.forward;
      reverse = Dict.put (to_lower w) j n.reverse;
    } in
    let there =
      add_names-forward n' m (to_lower j) fresh ∙ get-put (to_lower j) (to_lower j) w n.forward in
    let back = add_names-reverse n' m w other ∙ get-put (to_lower w) w j n.reverse in
    elim (Bool-cases (text_eq j k)) [
      | inl e ↦ (
        ground (arith, there, text_eq_iff j k, text_eq_refl (to_lower j)),
        ground (arith, back, text_eq_iff j k, low, text_eq_refl w),
      )
      | inr e ↦ add_names-get n' m k v i (ground arith)
    ]

-- A name whose provider's name is in the map goes to that name and comes back as it was, where no two
-- names are the same up to case and the provider's names are in lower case.
pub name_mapper_round_trip :
    (m : Dict Text) (k v : Text)
    → IsInjective m
    → Dict.get k m ≡ some v
    → (get_provider_attribute_name (new_name_mapper m) k ≡ v)
      × (get_hexa_filter_attribute_path
            (new_name_mapper m)
            (get_provider_attribute_name (new_name_mapper m) k)
          ≡ k)
unfolding new_name_mapper get_provider_attribute_name get_hexa_filter_attribute_path
name_mapper_round_trip m k v i h =
    let (there, back) = add_names-get (record { forward = []; reverse = [] }) m k v i h in
    ground (arith, there, back)

to_lower_idem : (t : Text) → to_lower (to_lower t) ≡ to_lower t
unfolding to_lower lower
to_lower_idem [] = refl
to_lower_idem (c ∷ t) = ground (arith, to_lower_idem t)

value_in-lower : (x : Text) (m : Dict Text) → text_eq (to_lower x) x ≡ false → value_in x m ≡ false
value_in-lower x [] h = refl
value_in-lower x ((k, v) ∷ m) h = ground (
  arith,
  value_in-lower x m h,
  text_eq_iff (to_lower v) x,
  text_eq_iff (to_lower x) x,
  to_lower_idem v,
)

-- A provider's name with a letter in upper case is never mapped back, whatever the map: the name comes
-- back as it is.
pub get_hexa_filter_attribute_path-upper :
    (m : Dict Text) (x : Text)
    → text_eq (to_lower x) x ≡ false
    → get_hexa_filter_attribute_path (new_name_mapper m) x ≡ x
unfolding get_hexa_filter_attribute_path new_name_mapper
get_hexa_filter_attribute_path-upper m x h =
    ap (λ o. or_else o x)
      (add_names-reverse (record { forward = []; reverse = [] }) m x (value_in-lower x m h)
        ∙ get-nil x)
