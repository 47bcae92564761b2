-- ===== src/Common/Strings.antt =====
-- JavaScript strings as lists of code points: equality, `includes`, `startsWith`, `split` and `join`.
use Prim.Native.Nat.{ℕ, zero, suc, ◌+◌, ◌/◌, ◌%◌}
use Prim.Native.Char.{code}
use Prim.Native.String.{String}
use mathlib.Core.Bool.{Bool, true, false, ◌&&◌, ◌||◌}
use mathlib.Core.Path.{◌≡◌, refl}
use mathlib.Core.Logic.{◌≢◌}
use mathlib.Core.List.{List, [], ◌∷◌, ◌++◌}
use native.Mathlib.Omega.{arith}
use beam_sdk_public.Common.Tests.{leb, ltb, ◌==◌, if◌then◌else◌}
use beam_sdk_public.Common.Lists.{All}

abbrev pub Text : Type 0
Text = List ℕ

-- The text that a literal spells.
abbrev pub codes : String → Text
codes String.[] = []
codes (String.◌∷◌ c s) = code c ∷ codes s

unfoldable pub text_eq : Text → Text → Bool
text_eq [] [] = true
text_eq [] (y ∷ ys) = false
text_eq (x ∷ xs) [] = false
text_eq (x ∷ xs) (y ∷ ys) = (x == y) && text_eq xs ys

pub text_eq→eq : (a b : Text) → text_eq a b ≡ true → a ≡ b
unfolding text_eq
text_eq→eq [] [] h = refl
text_eq→eq [] (y ∷ ys) h = cc
text_eq→eq (x ∷ xs) [] h = cc
text_eq→eq (x ∷ xs) (y ∷ ys) h = ground (arith, text_eq→eq xs ys)

pub text_eq_refl : (a : Text) → text_eq a a ≡ true
unfolding text_eq
text_eq_refl [] = refl
text_eq_refl (x ∷ xs) = ground (arith, text_eq_refl xs)

-- `Array.prototype.includes` on an array of strings.
unfoldable pub includes : List Text → Text → Bool
includes [] t = false
includes (x ∷ xs) t = text_eq x t || includes xs t

-- `String.prototype.startsWith`.
unfoldable pub starts_with : Text → Text → Bool
starts_with s [] = true
starts_with [] (p ∷ ps) = false
starts_with (c ∷ s) (p ∷ ps) = (c == p) && starts_with s ps

abbrev pub cons_first : ℕ → List Text → List Text
cons_first c [] = (c ∷ []) ∷ []
cons_first c (x ∷ xs) = (c ∷ x) ∷ xs

-- `String.prototype.split` by a one-character separator.
unfoldable pub split_on : ℕ → Text → List Text
split_on sep [] = [] ∷ []
split_on sep (c ∷ s) =
    let rest = split_on sep s in if c == sep then [] ∷ rest else cons_first c rest

-- `Array.prototype.join` by a one-character separator.
unfoldable pub join_by : ℕ → List Text → Text
join_by sep [] = []
join_by sep (x ∷ []) = x
join_by sep (x ∷ y ∷ xs) = x ++ sep ∷ join_by sep (y ∷ xs)

abbrev pub Free : ℕ → Text → Type 0
Free c s = All (λ x. x ≢ c) s

-- The first piece ends at the first separator.
pub split_on-append :
    (sep : ℕ) (a b : Text) → Free sep a → split_on sep (a ++ sep ∷ b) ≡ a ∷ split_on sep b
unfolding split_on
split_on-append sep [] b h = ground arith
split_on-append sep (x ∷ xs) b h = ground (arith, split_on-append sep xs b h.1)

pub split_on-Free : (sep : ℕ) (a : Text) → Free sep a → split_on sep a ≡ a ∷ []
unfolding split_on
split_on-Free sep [] h = refl
split_on-Free sep (x ∷ xs) h = ground (arith, split_on-Free sep xs h.1)

-- `String.prototype.trim`: the white space and the line ends of JavaScript.
abbrev is_space : ℕ → Bool
is_space c =
    (leb 9 c && leb c 13)
    || (c == 32)
    || (c == 160)
    || (c == 5760)
    || (leb 8192 c && leb c 8202)
    || (c == 8232)
    || (c == 8233)
    || (c == 8239)
    || (c == 8287)
    || (c == 12288)
    || (c == 65279)

trim_start : Text → Text
trim_start [] = []
trim_start (c ∷ s) = let rest = trim_start s in if is_space c then rest else c ∷ s

drop_if_last : ℕ → Text → Text
drop_if_last c [] = if is_space c then [] else c ∷ []
drop_if_last c (d ∷ t) = c ∷ d ∷ t

trim_end : Text → Text
unfolding drop_if_last
trim_end [] = []
trim_end (c ∷ s) = drop_if_last c (trim_end s)

unfoldable pub trim : Text → Text
unfolding trim_start trim_end
trim s = trim_end (trim_start s)

abbrev decimal_from : ℕ → ℕ → Text
decimal_from zero n = []
decimal_from (suc f) n =
    let rest = decimal_from f (n / 10) in (if ltb n 10 then [] else rest) ++ (48 + n % 10) ∷ []

-- `Number.prototype.toString`; a number has no more digits than its size.
unfoldable pub decimal : ℕ → Text
decimal n = decimal_from (suc n) n
