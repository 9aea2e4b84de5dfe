-- ===== src/Cedar/Policies/Dropped.antt =====
-- What is left of a file of Cedar policies with one that cannot be mapped.
use policy_conditions.Base.{◌≡◌, refl, Option, none, some, List, [], ◌∷◌}
use policy_conditions.Base.Text.{Text}
use policy_conditions.Base.Except.{Except, raise, done}
use policy_conditions.Types.Platform.{Platform}
use policy_conditions.Cedar.FromCedar.Leaves.{CedarError}
use policy_conditions.Cedar.Policies.{
  CedarPolicy, Annotated, map_cedar_policy, map_until_error, map_cedar_policy_bytes,
}

module _ (P : Platform) (unquote : Text → Option Text) where
  -- The policies are those in front of the first one with an error.
  pub data BeforeError : List CedarPolicy → List Annotated → Type 0 where
    at_end : BeforeError [] []
    at_error :
        {c : CedarPolicy} (e : CedarError) (cs : List CedarPolicy)
        → map_cedar_policy P unquote c ≡ some (raise e)
        → BeforeError (c ∷ cs) []
    before :
        {c : CedarPolicy} {cs : List CedarPolicy} {p : Annotated} {ps : List Annotated}
        → map_cedar_policy P unquote c ≡ some (done p)
        → BeforeError cs ps
        → BeforeError (c ∷ cs) (p ∷ ps)

  -- none for a panic
  abbrev Kept : List CedarPolicy → Option (List Annotated) → Type 0
  Kept cs none = Unit
  Kept cs (some ps) = BeforeError cs ps

  after-Kept :
      (c : CedarPolicy) (cs : List CedarPolicy) (r : Option (Except CedarError Annotated))
      → map_cedar_policy P unquote c ≡ r
      → (rest : Option (List Annotated)) → Kept cs rest
      → Kept (c ∷ cs) (elim r [
        | none ↦ none
        | some (raise e) ↦ some []
        | some (done p) ↦ elim rest [ none ↦ none | some ps ↦ some (p ∷ ps) ]
      ])
  after-Kept c cs none h rest k = tt
  after-Kept c cs (some (raise e)) h rest k = at_error e cs h
  after-Kept c cs (some (done p)) h none k = tt
  after-Kept c cs (some (done p)) h (some ps) k = before h k

  until_error-Kept : (cs : List CedarPolicy) → Kept cs (map_until_error P unquote cs)
  unfolding map_until_error
  until_error-Kept [] = at_end
  until_error-Kept (c ∷ cs) =
      after-Kept c cs (map_cedar_policy P unquote c) refl (map_until_error P unquote cs)
        (until_error-Kept cs)

  abbrev pub Reported :
      {Error : Type 0}
      → List CedarPolicy
      → Text
      → Option (Except Error (List Annotated × Text))
      → Type 0
  Reported cs location none = Unit
  Reported cs location (some (raise e)) = ⊥
  Reported cs location (some (done (ps, app))) = BeforeError cs ps × (app ≡ location)

  reported :
      (Error : Type 0) (cs : List CedarPolicy) (location : Text) (r : Option (List Annotated))
      → Kept cs r
      → Reported {Error = Error} cs location
          (elim r [ none ↦ none | some ps ↦ some (done (ps, location)) ])
  reported Error cs location none h = tt
  reported Error cs location (some ps) h = (h, refl)

  -- Of a text that is parsed, `MapCedarPolicyBytes` returns no error: unless it panics, it returns the
  -- policies in front of the first one that cannot be mapped.
  pub map_cedar_policy_bytes-Reported :
      {Error : Type 0} (parse : Text → Text → Except Error (List CedarPolicy))
      (location bytes : Text) (cs : List CedarPolicy)
      → parse location bytes ≡ done cs
      → Reported cs location (map_cedar_policy_bytes P unquote parse location bytes)
  unfolding map_cedar_policy_bytes
  map_cedar_policy_bytes-Reported parse location bytes cs h =
      rw (h, map_cedar_policy_bytes)
        (reported _ cs location (map_until_error P unquote cs) (until_error-Kept cs))
