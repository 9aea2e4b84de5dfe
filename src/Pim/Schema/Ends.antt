-- ===== src/Pim/Schema/Ends.antt =====
-- The search for an attribute ends, where no common type leads back to itself.
use mathlib.Core.Path.{subst}
use policy_conditions.Base.{
  ℕ, zero, suc, ◌+◌, ◌<◌, ◌≤◌, ◌≡◌, refl, Bool, true, false, Option, none, some, [], ◌∷◌, ◌==◌,
  arith, if◌then◌else◌, sym,
}
use policy_conditions.Base.Lists.{is_empty, length}
use policy_conditions.Base.Text.{Text, equal_fold}
use policy_conditions.Base.Dict
use policy_conditions.Types.Entity.{Entity, get_type, id, is_path}
use policy_conditions.Pim.Schema

abbrev Ends : Schema.Search → Type 0
Ends r = (x : Option Schema.AttrType) × (r ≡ some x)

or_later-Ends : (r later : Schema.Search) → Ends r → Ends later → Ends (Schema.or_later r later)
or_later-Ends none later (x, e) h = ground (arith, e)
or_later-Ends (some none) later e h = h
or_later-Ends (some (some a)) later e h = (some a, refl)

-- A rest is there only with fewer bytes.
abbrev Shorter : ℕ → Option Text → Type 0
Shorter k none = Unit
Shorter k (some rest) = length rest < k

Shorter-suc : (k : ℕ) (r : Option Text) → Shorter k r → Shorter (suc k) r
Shorter-suc k none h = tt
Shorter-suc k (some rest) h = omega arith

split_path-Shorter : (p : Text) → Shorter (length p) (Schema.split_path p).1
unfolding Schema.split_path
split_path-Shorter [] = tt
split_path-Shorter (c ∷ cs) =
    elim (c == b'.')
      as (λ b.
        Shorter (suc (length cs))
          (if b then ([], some cs) else Schema.first_part c (Schema.split_path cs)).1) [
            | true ↦ omega arith
            | false ↦ Shorter-suc (length cs) (Schema.split_path cs).1 (split_path-Shorter cs)
          ]

-- Enough fuel for a path of a length, beside that for the types of the same path, whose ranks have a bound.
abbrev pub units : ℕ → ℕ → ℕ
units bound zero = 0
units bound (suc l) = units bound l + (bound + 3)

units-less : (bound k l : ℕ) → k < l → units bound k + (bound + 3) ≤ units bound l
units-less bound zero (suc l) h = omega arith
units-less bound (suc k) (suc l) h = omega (arith, units-less bound k l (omega arith))
units-less bound zero zero h = omega arith
units-less bound (suc k) zero h = omega arith

module _ (s : Schema.SchemaType) (rank : Text → ℕ) (bound : ℕ) where
  -- The common types that the attributes have are of a rank below `k`.
  abbrev pub Below : ℕ → Schema.Attributes → Type 0
  Below k Schema.end = Unit
  Below k (Schema.entry name a as') =
      ((c : Schema.Attributes)
        → Dict.get (Schema.type_name a) s.common_types ≡ some c
        → rank (Schema.type_name a) < k)
      × Below k as'

  -- Every common type has a rank below the bound, and those of its attributes have lower ones.
  abbrev pub Ranked : Type 0
  Ranked =
      (t : Text) (c : Schema.Attributes)
      → Dict.get t s.common_types ≡ some c
      → (rank t < bound) × Below (rank t) c

  Below-bound : Ranked → (as' : Schema.Attributes) → Below bound as'
  Below-bound h Schema.end = tt
  Below-bound h (Schema.entry name a as') =
      ((λ c e. (h (Schema.type_name a) c e).0), Below-bound h as')

  within-Ends :
      (find : Schema.AttrType → Text → Schema.Search) (rest : Option Text) (a : Schema.AttrType)
      → ((r : Text) → rest ≡ some r → (b : Schema.AttrType) → Ends (find b r))
      → Ends (Schema.within find rest a)
  within-Ends find none a f = (some a, refl)
  within-Ends find (some r) a f = f r refl a

  if-Ends : (b : Bool) (r : Schema.Search) → Ends r → Ends (if b then r else some none)
  if-Ends true r h = h
  if-Ends false r h = (none, refl)

  in_common-Ends :
      (search : Schema.Attributes → Text → Schema.Search) (path t : Text)
      → ((c : Schema.Attributes) → Dict.get t s.common_types ≡ some c → Ends (search c path))
      → Ends (Schema.in_common s search path t)
  unfolding Schema.in_common
  in_common-Ends search path t f =
      elim (Schema.is_builtin t)
        as (λ b. Ends (
          if b
          then some none
          else elim (Dict.get t s.common_types) [ none ↦ some none | some c ↦ search c path ])) [
            | true ↦ (none, refl)
            | false ↦ looked_up (Dict.get t s.common_types) f
          ]
    where
      looked_up :
          (o : Option Schema.Attributes)
          → ((c : Schema.Attributes) → o ≡ some c → Ends (search c path))
          → Ends (elim o [ none ↦ some none | some c ↦ search c path ])
      looked_up none g = (none, refl)
      looked_up (some c) g = g c refl

  each_attr-Ends :
      (find : Schema.AttrType → Text → Schema.Search)
      (search : Schema.Attributes → Text → Schema.Search) (path first : Text) (rest : Option Text)
      (k : ℕ) (as' : Schema.Attributes)
      → ((r : Text) → rest ≡ some r → (b : Schema.AttrType) → Ends (find b r))
      → ((t : Text) (c : Schema.Attributes)
          → Dict.get t s.common_types ≡ some c
          → rank t < k
          → Ends (search c path))
      → Below k as'
      → Ends (Schema.each_attr s find search path (first, rest) as')
  unfolding Schema.each_attr
  each_attr-Ends find search path first rest k Schema.end f g h = (none, refl)
  each_attr-Ends find search path first rest k (Schema.entry name a as') f g h =
      let found = if equal_fold first name then Schema.within find rest a else some none in
      let common = Schema.in_common s search path (Schema.type_name a) in
      let later = Schema.each_attr s find search path (first, rest) as' in
      or_later-Ends found (Schema.or_later common later)
        (if-Ends (equal_fold first name) (Schema.within find rest a) (within-Ends find rest a f))
        (or_later-Ends common later
          (in_common-Ends search path (Schema.type_name a)
            (λ c e. g (Schema.type_name a) c e (h.0 c e)))
          (each_attr-Ends find search path first rest k as' f g h.1))

  in_element-Ends :
      (find : Schema.AttrType → Text → Schema.Search) (rest : Option Text) (later : Schema.Search)
      (o : Option Schema.AttrType)
      → ((r : Text) → rest ≡ some r → (b : Schema.AttrType) → Ends (find b r))
      → Ends later
      → Ends (Schema.in_element s find rest later o)
  unfolding Schema.in_element
  in_element-Ends find rest later none f h = h
  in_element-Ends find rest later (some a) f h = within-Ends find rest a f

  rest-Shorter : (p r : Text) → (Schema.split_path p).1 ≡ some r → length r < length p
  rest-Shorter p r e = subst (Shorter (length p)) e (split_path-Shorter p)

  mutual
    unfolding Schema.do_find_attr Schema.find_attr_types

    do_find_attr-Ends :
        (n k : ℕ) (as' : Schema.Attributes) (p : Text)
        → Ranked
        → Below k as'
        → k ≤ bound
        → units bound (length p) + k < n
        → Ends (Schema.do_find_attr s n as' p)
    do_find_attr-Ends zero k as' p h b l m = ground arith
    do_find_attr-Ends (suc n) k as' p h b l m =
        elim (is_empty p)
          as (λ e. Ends (
            if e
            then some none
            else Schema.each_attr s (Schema.find_attr_types s n) (Schema.do_find_attr s n) p
                (Schema.split_path p) as')) [
                  | true ↦ (none, refl)
                  | false ↦
                      each_attr-Ends (Schema.find_attr_types s n) (Schema.do_find_attr s n) p
                        (Schema.split_path p).0 (Schema.split_path p).1 k as'
                        (λ r e a. find_attr_types-Ends n a r h (
                          omega
                            (arith, units-less bound (length r) (length p) (rest-Shorter p r e))))
                        (λ t c e j.
                          do_find_attr-Ends n (rank t) c p h (h t c e).1 (omega arith)
                            (omega arith))
                        b
                ]

    find_attr_types-Ends :
        (n : ℕ) (a : Schema.AttrType) (p : Text)
        → Ranked
        → units bound (length p) + (bound + 1) < n
        → Ends (Schema.find_attr_types s n a p)
    find_attr_types-Ends zero a p h m = ground arith
    find_attr_types-Ends (suc n) (Schema.attr_type t el as') p h m =
        in_element-Ends (Schema.find_attr_types s n) (Schema.split_path p).1
          (Schema.do_find_attr s n as' p)
          (Schema.lookup (Schema.split_path p).0 (Schema.element_attributes s el))
          (λ r e a.
            find_attr_types-Ends n a r h
              (omega (arith, units-less bound (length r) (length p) (rest-Shorter p r e))))
          (do_find_attr-Ends n bound as' p h (Below-bound h as') (omega arith) (omega arith))

  -- FindAttrType ends for an entity with an identifier, on fuel for the length of it and the bound of the
  -- ranks, where every common type has a rank that is above those of the common types of its own
  -- attributes.
  pub find_attr_type-ends :
      (n : ℕ) (e : Entity) (i : Text)
      → Ranked
      → id e ≡ some i
      → units bound (length i) + bound < n
      → (x : Option Schema.AttrType) × (Schema.find_attr_type s n e ≡ some x)
  unfolding Schema.find_attr_type Schema.find_in_shape
  find_attr_type-ends n e i h g m = found (Dict.get (get_type e) s.entity_types)
    where
      searched : (t : Schema.EntityType) → Ends (Schema.find_in_shape s n t.shape (some i))
      searched t =
          if-Ends (is_path i) (Schema.do_find_attr s n t.shape i)
            (do_find_attr-Ends n bound t.shape i h (Below-bound h t.shape) (omega arith) m)

      found :
          (o : Option Schema.EntityType)
          → Ends (elim o [ none ↦ some none | some t ↦ Schema.find_in_shape s n t.shape (id e) ])
      found none = (none, refl)
      found (some t) = subst (λ j. Ends (Schema.find_in_shape s n t.shape j)) (sym g) (searched t)

module _ (s : Schema.SchemaType) where
  -- A common type whose only attribute is of that type itself is searched without end for any path
  -- that does not begin with the name of the attribute.
  pub find_attr-never_ends :
      (t name path : Text) (el : Schema.Element) (sub : Schema.Attributes)
      → Schema.is_builtin t ≡ false
      → is_empty path ≡ false
      → equal_fold (Schema.split_path path).0 name ≡ false
      → Dict.get t s.common_types ≡ some (Schema.entry name (Schema.attr_type t el sub) Schema.end)
      → (n : ℕ)
      → Schema.do_find_attr s n (Schema.entry name (Schema.attr_type t el sub) Schema.end) path
        ≡ none
  unfolding Schema.do_find_attr Schema.each_attr Schema.in_common
  find_attr-never_ends t name path el sub b p f h zero = refl
  find_attr-never_ends t name path el sub b p f h (suc n) =
      rw p (rw f (rw b (rw h (rw (find_attr-never_ends t name path el sub b p f h n) refl))))
