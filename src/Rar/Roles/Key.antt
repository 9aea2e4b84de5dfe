-- ===== src/Rar/Roles/Key.antt =====
-- The key of a record of roles, and the key that is made of a policy.
use mathlib.Core.List.{reverse, reverse-cons}
use policy_conditions.Base.{
  false, ◌≡◌, refl, ap, ap₂, sym, ◌∙◌, inl, inr, List, [], ◌∷◌, ◌++◌, arith, Bool-cases,
}
use policy_conditions.Base.Lists.{is_empty}
use policy_conditions.Base.Text.{
  Text, codes, text_eq, to_lower, trim_space, trim_left, is_space, cut_prefix, has_prefix, join,
  replace_all,
}
use policy_conditions.Rar.Slices.{is_blank}
use policy_conditions.Rar.Roles.{
  http_methods, find_method, get_http_method, sanitize_members, new_roles,
  new_resource_action_uri_roles, make_rar_key, name, make_rar_key_for_policy,
}

-- Each method is found under its own name, and it is not blank.
IsMethod : Text → Type 0
IsMethod m = (get_http_method m [] ≡ m) × (is_blank m ≡ false) × (is_empty m ≡ false)

AreMethods : List Text → Type 0
AreMethods [] = Unit
AreMethods (m ∷ ms) = IsMethod m × AreMethods ms

http_methods-AreMethods : AreMethods http_methods
unfolding AreMethods IsMethod get_http_method is_blank text_eq to_lower trim_space
http_methods-AreMethods = (
  (refl, refl, refl),
  (
    (refl, refl, refl),
    (
      (refl, refl, refl),
      (
        (refl, refl, refl),
        (
          (refl, refl, refl),
          (
            (refl, refl, refl),
            ((refl, refl, refl), ((refl, refl, refl), ((refl, refl, refl), tt))),
          ),
        ),
      ),
    ),
  ),
)

find_method-IsMethod :
    (action prefix : Text) (ms : List Text)
    → AreMethods ms
    → is_empty (find_method action prefix ms) ≡ false
    → IsMethod (find_method action prefix ms)
unfolding find_method AreMethods
find_method-IsMethod action prefix [] a h = ground arith
find_method-IsMethod action prefix (m ∷ ms) a h =
    elim (Bool-cases (text_eq (to_lower (prefix ++ m)) (to_lower action))) [
      | inl e ↦ rw (e, find_method) a.0
      | inr e ↦ rw (e, find_method) (find_method-IsMethod action prefix ms a.1 (ground arith))
    ]

get_http_method-IsMethod :
    (action prefix : Text)
    → is_empty (get_http_method action prefix) ≡ false
    → IsMethod (get_http_method action prefix)
unfolding get_http_method
get_http_method-IsMethod action prefix h =
    find_method-IsMethod action prefix http_methods http_methods-AreMethods h

trim_left-last :
    (s : Text) (c : _) → is_space c ≡ false → is_empty (trim_left (s ++ (c ∷ []))) ≡ false
unfolding trim_left
trim_left-last [] c h = ground arith
trim_left-last (b ∷ s) c h = ground (arith, trim_left-last s c h)

is_empty-append_one : (s t : Text) (c : _) → is_empty (s ++ (c ∷ t)) ≡ false
is_empty-append_one [] t c = refl
is_empty-append_one (b ∷ s) t c = refl

is_empty-reverse : (s : Text) → is_empty (reverse s) ≡ is_empty s
is_empty-reverse [] = refl
is_empty-reverse (c ∷ s) = ap is_empty (reverse-cons c s) ∙ is_empty-append_one (reverse s) [] c

is_blank-slash : (s : Text) → is_blank (b'/' ∷ s) ≡ false
unfolding is_blank trim_space trim_left is_space
is_blank-slash s =
    is_empty-reverse (trim_left (reverse (b'/' ∷ s)))
    ∙ ap (λ t. is_empty (trim_left t)) (reverse-cons b'/' s)
    ∙ trim_left-last (reverse s) b'/' refl

cut_prefix-slash : (s : Text) → cut_prefix (b'/' ∷ s) (codes "/") ≡ s
unfolding cut_prefix has_prefix
cut_prefix-slash s = ground arith

-- the two cases of `makeRarKey` that make a key
make_rar_key-made :
    (action resource prefix : Text)
    → is_blank resource ≡ false
    → is_blank action ≡ false
    → is_empty (get_http_method action prefix) ≡ false
    → make_rar_key action resource prefix
      ≡ join (codes "-") (
          codes "resrol"
          ∷ (codes "http" ++ to_lower (get_http_method action prefix))
          ∷ replace_all b'/' b'-' (cut_prefix resource (codes "/"))
          ∷ [])
unfolding make_rar_key
make_rar_key-made action resource prefix h k l = ground arith

new_resource_action_uri_roles-made :
    (resource uri : Text) (roles : List Text)
    → is_blank resource ≡ false
    → is_empty (get_http_method uri (codes "http:")) ≡ false
    → is_blank (get_http_method uri (codes "http:")) ≡ false
    → new_resource_action_uri_roles resource uri roles ≡ record {
      action = get_http_method uri (codes "http:");
      resource = b'/' ∷ trim_space (cut_prefix (trim_space resource) (codes "/"));
      roles = sanitize_members roles;
    }
unfolding new_resource_action_uri_roles new_roles
new_resource_action_uri_roles-made resource uri roles h l b = ground arith

-- The roles that are made for a policy have the key that is made of the policy, where the policy's
-- resource is not blank and has no blanks around it, also without a first slash, and its action names
-- a method.
pub name-new_resource_action_uri_roles :
    (resource uri : Text) (roles : List Text)
    → is_blank resource ≡ false
    → is_blank uri ≡ false
    → is_empty (get_http_method uri (codes "http:")) ≡ false
    → trim_space resource ≡ resource
    → trim_space (cut_prefix resource (codes "/")) ≡ cut_prefix resource (codes "/")
    → name (new_resource_action_uri_roles resource uri roles) ≡ make_rar_key_for_policy uri resource
unfolding name make_rar_key_for_policy IsMethod
name-new_resource_action_uri_roles resource uri roles h k l s t =
    let method = get_http_method uri (codes "http:") in
    let (found, blank, filled) = get_http_method-IsMethod uri (codes "http:") l in
    let rest = trim_space (cut_prefix (trim_space resource) (codes "/")) in
    let same : rest ≡ cut_prefix resource (codes "/") =
      ap (λ r. trim_space (cut_prefix r (codes "/"))) s ∙ t in
    ap name (new_resource_action_uri_roles-made resource uri roles h l blank)
    ∙ make_rar_key-made method (b'/' ∷ rest) [] (is_blank-slash rest) blank
        (ap is_empty found ∙ filled)
    ∙ ap₂
        (λ m r.
          join (codes "-")
            (codes "resrol" ∷ (codes "http" ++ to_lower m) ∷ replace_all b'/' b'-' r ∷ []))
        found (cut_prefix-slash rest ∙ same)
    ∙ sym (make_rar_key-made uri resource (codes "http:") h k l)
