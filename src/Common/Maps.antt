-- ===== src/Common/Maps.antt =====
-- `Map`s with string keys: the entries in their order of insertion.
use mathlib.Core.Bool.{true, false}
use mathlib.Core.Logic.{◌⊎◌, inl, inr}
use mathlib.Core.Path.{◌≡◌, refl, subst, ◌∙◌}
use mathlib.Core.Option.{Option, none, some}
use mathlib.Core.List.{List, [], ◌∷◌}
use native.Mathlib.Omega.{arith}
use beam_sdk_public.Common.Tests.{if◌then◌else◌, if_rule, Bool-cases}
use beam_sdk_public.Common.Strings.{Text, text_eq, text_eq_refl, text_eq→eq}

-- `Map.get` and `Map.set` on the entries in their order of insertion.
unfoldable pub get_at {ℓ} : {A : Type ℓ} → Text → List (Text × A) → Option A
get_at k [] = none
get_at k ((j, a) ∷ es) = let rest = get_at k es in if text_eq j k then some a else rest

unfoldable pub set_at {ℓ} : {A : Type ℓ} → Text → A → List (Text × A) → List (Text × A)
set_at k a [] = (k, a) ∷ []
set_at k a ((j, b) ∷ es) =
    let rest = set_at k a es in if text_eq j k then (j, a) ∷ es else (j, b) ∷ rest

-- An entry that is set is found.
pub get_at-set_at {ℓ} :
    {A : Type ℓ} (k : Text) (a : A) (es : List (Text × A)) → get_at k (set_at k a es) ≡ some a
unfolding get_at set_at
get_at-set_at k a [] = rw (text_eq_refl k) refl
get_at-set_at k a ((j, b) ∷ es) = ground (arith, get_at-set_at k a es)

-- The other entries stay.
pub get_at-set_at_other {ℓ} :
    {A : Type ℓ} (j k : Text) (a : A) (es : List (Text × A))
    → text_eq j k ≡ false
    → get_at k (set_at j a es) ≡ get_at k es
unfolding get_at set_at
get_at-set_at_other j k a [] h = rw h refl
get_at-set_at_other j k a ((i, b) ∷ es) h =
    ground (arith, h, text_eq→eq i j, get_at-set_at_other j k a es h)

-- A key of the map.
abbrev pub IsIn {ℓ} : {A : Type ℓ} → Text → List (Text × A) → Type ℓ
IsIn {A} k m = (a : A) × (get_at k m ≡ some a)

module _ {ℓ} {A : Type ℓ} where
  pub IsIn-head :
      (j k : Text) (a : A) (m : List (Text × A)) → text_eq j k ≡ true → IsIn k ((j, a) ∷ m)
  unfolding get_at
  IsIn-head j k a m e = (a, rw e refl)

  pub IsIn-tail : (j k : Text) (a : A) (m : List (Text × A)) → IsIn k m → IsIn k ((j, a) ∷ m)
  unfolding get_at
  IsIn-tail j k a m (b, e) = elim (Bool-cases (text_eq j k)) [
    | inl same ↦ (a, rw same refl)
    | inr other ↦ (b, rw other e)
  ]

  pub IsIn-cons :
      (j k : Text) (a : A) (m : List (Text × A))
      → IsIn k ((j, a) ∷ m)
      → (text_eq j k ≡ true) ⊎ IsIn k m
  unfolding get_at
  IsIn-cons j k a m =
      if_rule (λ (o : Option A). (b : A) × (o ≡ some b) → (text_eq j k ≡ true) ⊎ IsIn k m)
        (text_eq j k) _ _ (λ same v. inl same) (λ other v. inr v)

  pub IsIn-set_at_self : (k : Text) (a : A) (m : List (Text × A)) → IsIn k (set_at k a m)
  IsIn-set_at_self k a m = (a, get_at-set_at k a m)

  pub IsIn-set_at : (j k : Text) (a : A) (m : List (Text × A)) → IsIn k m → IsIn k (set_at j a m)
  IsIn-set_at j k a m (b, e) = elim (Bool-cases (text_eq j k)) [
    | inl same ↦ subst (λ x. IsIn x (set_at j a m)) (text_eq→eq j k same) (IsIn-set_at_self j a m)
    | inr other ↦ (b, get_at-set_at_other j k a m other ∙ e)
  ]
