-- ===== src/Auth/Token/Decoding.antt =====
-- What packages/web-sdk/src/core/auth/token.ts hands to `atob`.
use beam_sdk_public.Common.{
  ℕ, zero, suc, ◌+◌, ◌-◌, ◌%◌, ◌≤◌, ◌≡◌, ◌≢◌, refl, List, [], ◌∷◌, ◌++◌, map, arith, Text, All,
  length, length-append,
}
use beam_sdk_public.Auth.Token.{standard_char, padding, with_padding}

length-map : (f : ℕ → ℕ) (s : Text) → length (map f s) ≡ length s
length-map f [] = refl
length-map f (c ∷ s) = omega (arith, length-map f s)

length-padding : (n : ℕ) → length (padding n) ≡ n
length-padding zero = refl
length-padding (suc n) = omega (arith, length-padding n)

All-append {ℓ κ} :
    {A : Type ℓ} (P : A → Type κ) (xs ys : List A) → All P xs → All P ys → All P (xs ++ ys)
All-append P [] ys h k = k
All-append P (x ∷ xs) ys h k = (h.0, All-append P xs ys h.1 k)

abbrev pub IsStandard : ℕ → Type 0
IsStandard c = (c ≢ b'-') × (c ≢ b'_')

map-IsStandard : (s : Text) → All IsStandard (map standard_char s)
unfolding standard_char
map-IsStandard [] = tt
map-IsStandard (c ∷ s) = (ground arith, map-IsStandard s)

padding-IsStandard : (n : ℕ) → All IsStandard (padding n)
padding-IsStandard zero = tt
padding-IsStandard (suc n) = (ground arith, padding-IsStandard n)

-- What `atob` is given is base64 in the standard alphabet, of a whole number of quadruples, and at most
-- three characters longer than the payload.
pub with_padding_lem :
    (s : Text)
    → (length (with_padding s) % 4 ≡ 0)
      × (length (with_padding s) ≤ length s + 3)
      × All IsStandard (with_padding s)
unfolding with_padding
with_padding_lem s =
    let size = length-append (map standard_char s) (padding ((4 - length s % 4) % 4)) in
    let parts = length-padding ((4 - length s % 4) % 4) in
    (
      omega (arith, size, parts, length-map standard_char s),
      omega (arith, size, parts, length-map standard_char s),
      All-append IsStandard _ _ (map-IsStandard s) (padding-IsStandard _),
    )
