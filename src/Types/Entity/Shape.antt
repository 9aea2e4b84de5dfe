-- ===== src/Types/Entity/Shape.antt =====
-- The entity values whose text `ParseEntity` reads back, and the characters that their parts hold.
use policy_conditions.Base.{
  ℕ, Bool, true, false, not, ◌&&◌, ◌||◌, ◌≡◌, none, some, List, [], ◌∷◌, ◌==◌,
}
use policy_conditions.Base.Lists.{all}
use policy_conditions.Base.Text.{Text, codes, equal_fold}
use policy_conditions.Types.Entity.{
  RelType, Entity, entity, absent, members, of_list, any_authenticated, is_in, in_set, equals,
  empty,
}

-- a character of a segment; with the flag set, of a segment inside a set
abbrev pub allowed : Bool → ℕ → Bool
allowed inside c = not (c == b':' || c == b'[' || c == b']' || (inside && c == b','))

-- a character of a member of a set
abbrev pub in_member : ℕ → Bool
in_member c = not (c == b'[' || c == b']' || c == b',')

abbrev pub IsSegment : Bool → Text → Type 0
IsSegment inside t = all (allowed inside) t ≡ true

abbrev pub AreSegments : Bool → List Text → Type 0
AreSegments inside [] = Unit
AreSegments inside (t ∷ ts) = IsSegment inside t × AreSegments inside ts

-- An identifier is not empty and does not spell `any` or `anyauthenticated`.
abbrev pub IsId : Bool → Text → Type 0
IsId inside [] = ⊥
IsId inside (c ∷ cs) =
    IsSegment inside (c ∷ cs)
    × (equal_fold (c ∷ cs) (codes "any") ≡ false)
    × (equal_fold (c ∷ cs) (codes "anyauthenticated") ≡ false)

-- An entity value with no set.
pub data IsSimple (inside : Bool) : Entity → Type 0 where
  any_one : IsSimple inside (entity [] RelType.any none absent)
  authenticated : IsSimple inside (entity [] any_authenticated none absent)
  nothing : IsSimple inside (entity [] empty none absent)
  of_type :
      {t : Text} {ts : List Text}
      → AreSegments inside (t ∷ ts)
      → IsSimple inside (entity (t ∷ ts) RelType.is none absent)
  instance_of :
      (ts : List Text) (i : Text)
      → AreSegments inside ts
      → IsId inside i
      → IsSimple inside (entity ts equals (some i) absent)

abbrev pub AreSimple : List Entity → Type 0
AreSimple [] = Unit
AreSimple (e ∷ es) = IsSimple true e × AreSimple es

abbrev pub LastFilled : List Text → Type 0
LastFilled [] = Unit
LastFilled ([] ∷ []) = ⊥
LastFilled ((c ∷ cs) ∷ []) = Unit
LastFilled (t ∷ u ∷ ts) = LastFilled (u ∷ ts)

-- An entity value that can be written as text and read back.
pub data IsCanonical : Entity → Type 0 where
  simple : {e : Entity} → IsSimple false e → IsCanonical e
  within :
      (e : Entity) (es : List Entity)
      → AreSimple (e ∷ es)
      → IsCanonical (entity [] in_set none (members (of_list (e ∷ es))))
  type_within :
      {t : Text} {ts : List Text} (e : Entity) (es : List Entity)
      → AreSegments false (t ∷ ts)
      → LastFilled (t ∷ ts)
      → AreSimple (e ∷ es)
      → IsCanonical (entity (t ∷ ts) is_in none (members (of_list (e ∷ es))))
