-- ===== src/Cedar/Scope/Texts.antt =====
-- The texts of the scopes of a Cedar policy, and which scopes are read back.
use policy_conditions.Base.{true, false, ◌≡◌, List, [], ◌∷◌, ◌++◌, map}
use policy_conditions.Base.Text.{Text, codes}
use policy_conditions.Types.Entity.Shape.{IsSegment, AreSegments, IsId, LastFilled}
use policy_conditions.Types.Quote.{quote}
use policy_conditions.Cedar.Scope.{
  Uid, Verb, principal, action, verb_text, Scope, split_types, comma,
}

-- An entity in Cedar's syntax, with its identifier quoted twice
abbrev pub quoted_twice : Uid → Text
quoted_twice u = u.type ++ (codes "::" ++ quote (quote u.id))

abbrev pub refs_behind : List Uid → Text
refs_behind [] = []
refs_behind (u ∷ us) = codes "," ++ (quoted_twice u ++ refs_behind us)

abbrev pub set_of : List Uid → Text
set_of [] = codes "[]"
set_of (u ∷ []) = quoted_twice u
set_of (u ∷ v ∷ us) = codes "[" ++ (quoted_twice u ++ (refs_behind (v ∷ us) ++ codes "]"))

-- A scope in Cedar's syntax, with each identifier quoted twice. A single action stands without its verb.
abbrev pub scope_texts : Verb → Scope → List Text
scope_texts principal Scope.all = codes "principal," ∷ []
scope_texts verb Scope.all = []
scope_texts action (Scope.equal u) = quoted_twice u ∷ []
scope_texts verb (Scope.equal u) =
    (verb_text verb ++ (codes " == " ++ (quoted_twice u ++ comma verb))) ∷ []
scope_texts verb (Scope.is_type t) = (verb_text verb ++ (codes " is " ++ (t ++ comma verb))) ∷ []
scope_texts verb (Scope.is_type_in t u) =
    (verb_text verb ++ (codes " is " ++ (t ++ (codes " in " ++ (quoted_twice u ++ comma verb)))))
    ∷ []
scope_texts verb (Scope.in_one u) =
    (verb_text verb ++ (codes " in " ++ (quoted_twice u ++ comma verb))) ∷ []
scope_texts action (Scope.in_many us) = map quoted_twice us
scope_texts verb (Scope.in_many us) =
    (verb_text verb ++ (codes " in " ++ (set_of us ++ comma verb))) ∷ []
scope_texts verb Scope.other_op = []

-- an entity of a set that is read back: its type is one segment
abbrev pub IsRef : Uid → Type 0
IsRef u = IsSegment true u.type × IsId true (quote u.id)

abbrev pub AreRefs : List Uid → Type 0
AreRefs [] = Unit
AreRefs (u ∷ us) = IsRef u × AreRefs us

abbrev pub IsReadBack : Scope → Type 0
IsReadBack (Scope.equal u) = AreSegments false (split_types u.type) × IsId false (quote u.id)
IsReadBack (Scope.is_type t) = IsSegment false t
IsReadBack (Scope.is_type_in t u) = IsSegment false t × LastFilled (t ∷ []) × IsRef u
IsReadBack (Scope.in_one u) = IsRef u
IsReadBack (Scope.in_many []) = true ≡ false
IsReadBack (Scope.in_many (u ∷ us)) = IsRef u × AreRefs us
IsReadBack Scope.other_op = true ≡ false
IsReadBack Scope.all = Unit
