-- ===== src/Sdk/Streams/Batching.antt =====
-- sdks/typescript/src/client.ts: numbered batches of routes.
use mathlib.Core.List.{append_assoc}
use beam_sdk_public.Common.{
  ℕ, ◌+◌, ◌≡◌, ◌≢◌, refl, sym, ap, ◌∙◌, subst, true, false, ◌||◌, inl, inr, List, [], ◌∷◌, ◌++◌,
  map, Bool-cases, ◌==◌, All, length, arith,
}
use beam_sdk_public.Sdk.{SignedChunkRoute}
use beam_sdk_public.Sdk.Splitting.Covering.{joined}
use beam_sdk_public.Sdk.Streams.{RouteBatch, signed_route_delivery_index, has_index, numbered}

-- A route as it is buffered.
abbrev pub placed : SignedChunkRoute → SignedChunkRoute
placed r = record r { delivery_index = signed_route_delivery_index r }

abbrev pub flat : List RouteBatch → List SignedChunkRoute
flat [] = []
flat (b ∷ bs) = b.routes ++ flat bs

-- Batches with consecutive indexes from one number up to another.
abbrev pub Numbered : ℕ → List RouteBatch → ℕ → Type 0
Numbered n [] m = n ≡ m
Numbered n (b ∷ bs) m = (b.batch_index ≡ n) × Numbered (n + 1) bs m

abbrev pub IsDistinct : List ℕ → Type 0
IsDistinct [] = Unit
IsDistinct (i ∷ is) = All (λ j. i ≢ j) is × IsDistinct is

pub flat-append : (a b : List RouteBatch) → flat (a ++ b) ≡ flat a ++ flat b
flat-append [] b = refl
flat-append (x ∷ a) b =
    ap (λ t. x.routes ++ t) (flat-append a b) ∙ sym (append_assoc x.routes (flat a) (flat b))

pub flat-numbered : (n : ℕ) (cs : List (List SignedChunkRoute)) → flat (numbered n cs) ≡ joined cs
flat-numbered n [] = refl
flat-numbered n (c ∷ cs) = ap (λ t. c ++ t) (flat-numbered (n + 1) cs)

pub Numbered-append :
    (n m k : ℕ) (a b : List RouteBatch) → Numbered n a m → Numbered m b k → Numbered n (a ++ b) k
Numbered-append n m k [] b v w = subst (λ i. Numbered i b k) (sym v) w
Numbered-append n m k (x ∷ a) b v w = (v.0, Numbered-append (n + 1) m k a b v.1 w)

pub Numbered-numbered :
    (n : ℕ) (cs : List (List SignedChunkRoute)) → Numbered n (numbered n cs) (n + length cs)
Numbered-numbered n [] = omega arith
Numbered-numbered n (c ∷ cs) = (
  refl,
  subst (Numbered (n + 1) (numbered (n + 1) cs)) (omega arith) (Numbered-numbered (n + 1) cs),
)

pub All-append : {A : Type 0} (P : A → Type 0) (a b : List A) → All P a → All P b → All P (a ++ b)
All-append P [] b v w = w
All-append P (x ∷ a) b v w = (v.0, All-append P a b v.1 w)

pub All-numbered :
    (P : List SignedChunkRoute → Type 0) (n : ℕ) (cs : List (List SignedChunkRoute))
    → All P cs
    → All (λ (b : RouteBatch). P b.routes) (numbered n cs)
All-numbered P n [] v = tt
All-numbered P n (c ∷ cs) v = (v.0, All-numbered P (n + 1) cs v.1)

pub IsDistinct-append :
    (is : List ℕ) (i : ℕ) → has_index i is ≡ false → IsDistinct is → IsDistinct (is ++ i ∷ [])
IsDistinct-append [] i e v = (tt, tt)
IsDistinct-append (j ∷ is) i e v = elim (Bool-cases (j == i)) [
  | inl q ↦ absurd (cc (rw_or q e))
  | inr q ↦ (
    All-append (λ k. j ≢ k) is (i ∷ []) v.0 (ground (arith, q), tt),
    IsDistinct-append is i (rw_tail q e) v.1,
  )
]
  where
    rw_or : (j == i) ≡ true → ((j == i) || has_index i is) ≡ false → true ≡ false
    rw_or q = rw q (λ h. h)

    rw_tail : (j == i) ≡ false → ((j == i) || has_index i is) ≡ false → has_index i is ≡ false
    rw_tail q = rw q (λ h. h)

pub map-append :
    {A B : Type 0} (f : A → B) (a : List A) (x : A) → map f (a ++ x ∷ []) ≡ map f a ++ f x ∷ []
map-append f [] x = refl
map-append f (y ∷ a) x = ap (λ t. f y ∷ t) (map-append f a x)
