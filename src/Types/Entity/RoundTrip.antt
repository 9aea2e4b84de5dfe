-- ===== src/Types/Entity/RoundTrip.antt =====
-- `ParseEntity` reads back what `Entity.String` writes.
use policy_conditions.Base.{
  ℕ, suc, Bool, true, false, ◌||◌, ◌≡◌, refl, sym, ap, ap₂, ◌∙◌, none, some, List, [], ◌∷◌, ◌++◌,
  append-nil, append_assoc, arith, ◌==◌, and-true,
}
use policy_conditions.Base.Lists.{all, is_empty, all-append}
use policy_conditions.Base.Text.{Text, equal_fold, join, split}
use policy_conditions.Types.Entity.{
  Entity, entity, absent, members, in_set, equals, start, scan, parse_all, relation, finish,
  parse_fuel, parse_entity, to_string, of_list, list_string, tail_string,
}
use policy_conditions.Types.Entity.Shape.{
  in_member, IsSegment, AreSegments, IsId, IsSimple, any_one, authenticated, nothing, of_type,
  instance_of, AreSimple, IsCanonical, simple, within, type_within,
}
use policy_conditions.Types.Entity.Segments.{scan_segment, scan_inside, scan_types, scan_types_open}

-- An identifier behind the types that were read.
parse_id :
    (n : ℕ) (b : Bool) (ts : List Text) (i : Text)
    → IsId b i
    → finish (scan (parse_fuel n) (record start { type_path = ts }) i)
      ≡ entity ts equals (some i) absent
unfolding finish relation
parse_id n b ts [] w = absurd w
parse_id n b ts (c ∷ cs) w =
    let s = record start { type_path = ts } in
    ap (λ (t : Text). finish (scan (parse_fuel n) s t)) (sym (append-nil (c ∷ cs)))
    ∙ ap finish (scan_segment (parse_fuel n) b (c ∷ cs) [] s refl w.0)
    ∙ unfold scan in ground arith

parse_filled :
    (n : ℕ) (v : Text)
    → is_empty v ≡ false
    → parse_fuel (suc n) v ≡ finish (scan (parse_fuel n) start v)
unfolding parse_fuel
parse_filled n [] h = cc
parse_filled n (c ∷ v) h = refl

filled-append : (xs : Text) (c : ℕ) (ys : Text) → is_empty (xs ++ (c ∷ ys)) ≡ false
filled-append [] c ys = refl
filled-append (x ∷ xs) c ys = refl

-- An entity value with no set is read back.
parse_simple : (n : ℕ) (b : Bool) {e : Entity} → IsSimple b e → parse_fuel (suc n) (to_string e) ≡ e
unfolding parse_fuel to_string
parse_simple n b any_one = unfold equal_fold in refl
parse_simple n b authenticated = unfold equal_fold in refl
parse_simple n b nothing = refl
parse_simple n b (of_type {t} {ts} w) =
    let s = record start { type_path = t ∷ ts } in
    parse_filled n _ (filled-append (join (b':' ∷ []) (t ∷ ts)) b':' [])
    ∙ ap finish (scan_types (parse_fuel n) b t ts [] start refl refl w)
    ∙ refl
parse_simple n b (instance_of [] (c ∷ cs) w v) = parse_id n b [] (c ∷ cs) v
parse_simple n b (instance_of [] [] w v) = absurd v
parse_simple n b (instance_of (t ∷ ts) i w v) =
    parse_filled n _ (filled-append (join (b':' ∷ []) (t ∷ ts)) b':' i)
    ∙ ap finish (scan_types (parse_fuel n) b t ts i start refl refl w)
    ∙ parse_id n b (t ∷ ts) i v

-- No text of a member has a bracket or a comma.
segment-in_member : (t : Text) → IsSegment true t → all in_member t ≡ true
segment-in_member [] w = refl
segment-in_member (c ∷ t) w = ground (arith, segment-in_member t)

in_member-join :
    (ts : List Text) (rest : Text)
    → AreSegments true ts
    → all in_member rest ≡ true
    → all in_member (join (b':' ∷ []) ts ++ (b':' ∷ rest)) ≡ true
unfolding join
in_member-join [] rest w r = r
in_member-join (t ∷ []) rest w r = simp (all-append, segment-in_member t w.0, r)
in_member-join (t ∷ u ∷ ts) rest w r =
    simp (all-append, append_assoc, segment-in_member t w.0, in_member-join (u ∷ ts) rest w.1 r)

in_member-simple : {e : Entity} → IsSimple true e → all in_member (to_string e) ≡ true
unfolding to_string
in_member-simple any_one = refl
in_member-simple authenticated = refl
in_member-simple nothing = refl
in_member-simple (of_type {t} {ts} w) = in_member-join (t ∷ ts) [] w refl
in_member-simple (instance_of [] (c ∷ cs) w v) = segment-in_member (c ∷ cs) v.0
in_member-simple (instance_of [] [] w v) = absurd v
in_member-simple (instance_of (t ∷ ts) (c ∷ cs) w v) =
    in_member-join (t ∷ ts) (c ∷ cs) w (segment-in_member (c ∷ cs) v.0)
in_member-simple (instance_of (t ∷ ts) [] w v) = absurd v

in_member-weaken :
    (w : Text) → all in_member w ≡ true → all (λ c. in_member c || c == b',') w ≡ true
in_member-weaken [] h = refl
in_member-weaken (c ∷ w) h = ground (arith, in_member-weaken w)

in_member-tail :
    (es : List Entity)
    → AreSimple es
    → all (λ c. in_member c || c == b',') (tail_string (of_list es)) ≡ true
unfolding to_string
in_member-tail [] w = refl
in_member-tail (e ∷ es) w =
    simp (all-append, in_member-weaken (to_string e) (in_member-simple w.0), in_member-tail es w.1)

-- `strings.Split` at the commas gives back the members.
split_plain : (w : Text) → all in_member w ≡ true → split b',' w ≡ w ∷ []
unfolding split
split_plain [] h = refl
split_plain (c ∷ w) h =
    let (here, later) = and-true (in_member c) (all in_member w) h in
    ground (arith, split_plain w later)

split_comma :
    (w rest : Text) → all in_member w ≡ true → split b',' (w ++ (b',' ∷ rest)) ≡ w ∷ split b',' rest
unfolding split
split_comma [] rest h = refl
split_comma (c ∷ w) rest h =
    let (here, later) = and-true (in_member c) (all in_member w) h in
    ground (arith, split_comma w rest later)

parse_members :
    (n : ℕ) (e : Entity) (es : List Entity)
    → AreSimple (e ∷ es)
    → parse_all (parse_fuel (suc n)) (split b',' (list_string (of_list (e ∷ es)))) ≡ e ∷ es
unfolding to_string
parse_members n e [] w =
    ap (λ t. parse_all (parse_fuel (suc n)) (split b',' t)) (append-nil (to_string e))
    ∙ ap (parse_all (parse_fuel (suc n))) (split_plain (to_string e) (in_member-simple w.0))
    ∙ ap (λ f. f ∷ []) (parse_simple n true w.0)
parse_members n e (f ∷ es) w =
    ap (parse_all (parse_fuel (suc n)))
      (split_comma (to_string e) (list_string (of_list (f ∷ es))) (in_member-simple w.0))
    ∙ ap₂ (λ g gs. g ∷ gs) (parse_simple n true w.0) (parse_members n f es w.1)

-- From an open bracket the members are read, and nothing is left.
parse_set :
    (n : ℕ) (ts : List Text) (e : Entity) (es : List Entity)
    → AreSimple (e ∷ es)
    → scan
        (parse_fuel (suc n))
        (record start { type_path = ts; is_set = true })
        (list_string (of_list (e ∷ es)) ++ (b']' ∷ []))
      ≡ record start { type_path = ts; sets = e ∷ es }
unfolding to_string scan
parse_set n ts e es w =
    let s = record start { type_path = ts; is_set = true } in
    let text = list_string (of_list (e ∷ es)) in
    scan_inside (parse_fuel (suc n)) text (b']' ∷ []) s refl (
      simp
        (all-append, in_member-weaken (to_string e) (in_member-simple w.0), in_member-tail es w.1))
    ∙ ap (λ (l : List Entity). record start { type_path = ts; sets = l }) (parse_members n e es w)

-- An entity value of each of the seven forms, written by `Entity.String`, is read back by
-- `ParseEntity` as it was: its types and identifier hold no `:`, `[` or `]` (nor `,` inside a set),
-- its identifier is not empty and spells neither `any` nor `anyauthenticated`, a set is not empty
-- and its members hold no sets, and the last type before a set is not empty.
pub parse_entity-to_string : {e : Entity} → IsCanonical e → parse_entity (to_string e) ≡ e
unfolding parse_entity to_string
parse_entity-to_string (simple w) = parse_simple 1 false w
parse_entity-to_string (within e es w) =
    parse_filled 1 (to_string (entity [] in_set none (members (of_list (e ∷ es))))) refl
    ∙ ap finish (parse_set 0 [] e es w)
    ∙ unfold finish in refl
parse_entity-to_string (type_within {t} {ts} e es w f v) =
    let inside = list_string (of_list (e ∷ es)) ++ (b']' ∷ []) in
    parse_filled 1 _ (filled-append (join (b':' ∷ []) (t ∷ ts)) b'[' inside)
    ∙ ap finish (
        scan_types_open (parse_fuel 1) false t ts inside start refl refl w f
        ∙ parse_set 0 (t ∷ ts) e es v)
    ∙ unfold finish in refl
