-- ===== src/Types/Entity/Segments.antt =====
-- Runs of the loop of `ParseEntity` over a segment, a type path and the inside of a set.
use policy_conditions.Base.{
  ℕ, Bool, true, false, ◌||◌, ◌≡◌, refl, ap, ◌∙◌, List, [], ◌∷◌, ◌++◌, append-nil, append_assoc,
  arith, ◌==◌, and-true,
}
use policy_conditions.Base.Lists.{all}
use policy_conditions.Base.Text.{Text, join}
use policy_conditions.Types.Entity.{Entity, Scan, step, scan}
use policy_conditions.Types.Entity.Shape.{allowed, in_member, IsSegment, AreSegments, LastFilled}

module _ (parse : Text → Entity) where
  scan-append :
      (s : Scan) (xs ys : Text) → scan parse s (xs ++ ys) ≡ scan parse (scan parse s xs) ys
  unfolding scan
  scan-append s [] ys = refl
  scan-append s (x ∷ xs) ys = scan-append (step parse s x) xs ys

  step-allowed :
      (b : Bool) (c : ℕ) (s : Scan)
      → s.is_set ≡ false
      → allowed b c ≡ true
      → step parse s c ≡ record s { sb = s.sb ++ (c ∷ []) }
  unfolding step
  step-allowed b c s h a = ground arith

  step-in_member :
      (c : ℕ) (s : Scan)
      → s.is_set ≡ true
      → (in_member c || c == b',') ≡ true
      → step parse s c ≡ record s { setb = s.setb ++ (c ∷ []) }
  unfolding step
  step-in_member c s h a = ground arith

  scan_by :
      (s t : Scan) (c : ℕ) (rest : Text)
      → step parse s c ≡ t
      → scan parse s (c ∷ rest) ≡ scan parse t rest
  unfolding scan
  scan_by s t c rest e = ap (λ u. scan parse u rest) e

  -- Outside a set a segment is gathered in `sb`.
  pub scan_segment :
      (b : Bool) (w rest : Text) (s : Scan)
      → s.is_set ≡ false
      → IsSegment b w
      → scan parse s (w ++ rest) ≡ scan parse (record s { sb = s.sb ++ w }) rest
  scan_segment b [] rest s h w = rw append-nil
  scan_segment b (c ∷ cs) rest s h w =
      let (here, later) = and-true (allowed b c) (all (allowed b) cs) w in
      let next = record s { sb = s.sb ++ (c ∷ []) } in
      scan_by s next c (cs ++ rest) (step-allowed b c s h here)
      ∙ scan_segment b cs rest next h later
      ∙ rw append_assoc

  -- Inside a set all but brackets is gathered in `setb`.
  pub scan_inside :
      (w rest : Text) (s : Scan)
      → s.is_set ≡ true
      → all (λ c. in_member c || c == b',') w ≡ true
      → scan parse s (w ++ rest) ≡ scan parse (record s { setb = s.setb ++ w }) rest
  scan_inside [] rest s h w = rw append-nil
  scan_inside (c ∷ cs) rest s h w =
      let (here, later) =
        and-true (in_member c || c == b',') (all (λ d. in_member d || d == b',') cs) w in
      let next = record s { setb = s.setb ++ (c ∷ []) } in
      scan_by s next c (cs ++ rest) (step-in_member c s h here)
      ∙ scan_inside cs rest next h later
      ∙ rw append_assoc

  step_colon :
      (s : Scan)
      → s.is_set ≡ false
      → step parse s b':' ≡ record s { type_path = s.type_path ++ (s.sb ∷ []); sb = [] }
  unfolding step
  step_colon s h = ground arith

  step_open :
      (s : Scan) (c : ℕ) (t : Text)
      → s.is_set ≡ false
      → s.sb ≡ c ∷ t
      → step parse s b'['
        ≡ record s { type_path = s.type_path ++ ((c ∷ t) ∷ []); sb = []; is_set = true }
  unfolding step
  step_open s c t h e = ground arith

  -- A type path, with a colon behind each type, is gathered in `type_path`.
  pub scan_types :
      (b : Bool) (t : Text) (ts : List Text) (rest : Text) (s : Scan)
      → s.is_set ≡ false
      → s.sb ≡ []
      → AreSegments b (t ∷ ts)
      → scan parse s (join (b':' ∷ []) (t ∷ ts) ++ (b':' ∷ rest))
        ≡ scan parse (record s { type_path = s.type_path ++ (t ∷ ts); sb = [] }) rest
  unfolding join
  scan_types b t [] rest s h e w =
      let read = record s { sb = s.sb ++ t } in
      let next = record s { type_path = s.type_path ++ ((s.sb ++ t) ∷ []); sb = [] } in
      scan_segment b t (b':' ∷ rest) s h w.0
      ∙ scan_by read next b':' rest (step_colon read h)
      ∙ rw e
  scan_types b t (u ∷ ts) rest s h e w =
      let read = record s { sb = s.sb ++ t } in
      let next = record s { type_path = s.type_path ++ ((s.sb ++ t) ∷ []); sb = [] } in
      let more = join (b':' ∷ []) (u ∷ ts) ++ (b':' ∷ rest) in
      ap (scan parse s) (append_assoc t (b':' ∷ join (b':' ∷ []) (u ∷ ts)) (b':' ∷ rest))
      ∙ scan_segment b t (b':' ∷ more) s h w.0
      ∙ scan_by read next b':' more (step_colon read h)
      ∙ scan_types b u ts rest next h refl w.1
      ∙ rw (append_assoc, e)

  -- A type path before an opening bracket, its last type not empty.
  pub scan_types_open :
      (b : Bool) (t : Text) (ts : List Text) (rest : Text) (s : Scan)
      → s.is_set ≡ false
      → s.sb ≡ []
      → AreSegments b (t ∷ ts)
      → LastFilled (t ∷ ts)
      → scan parse s (join (b':' ∷ []) (t ∷ ts) ++ (b'[' ∷ rest))
        ≡ scan parse (record s { type_path = s.type_path ++ (t ∷ ts); sb = []; is_set = true }) rest
  unfolding join
  scan_types_open b [] [] rest s h e w f = absurd f
  scan_types_open b (c ∷ t) [] rest s h e w f =
      let read = record s { sb = s.sb ++ (c ∷ t) } in
      let next = record s { type_path = s.type_path ++ ((c ∷ t) ∷ []); sb = []; is_set = true } in
      scan_segment b (c ∷ t) (b'[' ∷ rest) s h w.0
      ∙ scan_by read next b'[' rest (step_open read c t h (ap (λ (v : Text). v ++ (c ∷ t)) e))
  scan_types_open b t (u ∷ ts) rest s h e w f =
      let read = record s { sb = s.sb ++ t } in
      let next = record s { type_path = s.type_path ++ ((s.sb ++ t) ∷ []); sb = [] } in
      let more = join (b':' ∷ []) (u ∷ ts) ++ (b'[' ∷ rest) in
      ap (scan parse s) (append_assoc t (b':' ∷ join (b':' ∷ []) (u ∷ ts)) (b'[' ∷ rest))
      ∙ scan_segment b t (b':' ∷ more) s h w.0
      ∙ scan_by read next b':' more (step_colon read h)
      ∙ scan_types_open b u ts rest next h refl w.1 f
      ∙ rw (append_assoc, e)
