-- ===== src/Relay/Starts/Sorting.antt =====
-- packages/cre/relay/relay.ts: the sort of a range's logs.
use beam_sdk_public.Common.{
  ℕ, ◌≤◌, ◌≡◌, refl, inl, inr, true, false, List, [], ◌∷◌, if_rule, All, Has, arith, sym, subst,
}
use beam_sdk_public.Relay.Starts.{TransferRequestLog, is_before, insert, sort}

abbrev pub IsAfter : ℕ → TransferRequestLog → Type 0
IsAfter b q = b ≤ q.block_number

abbrev pub IsSorted : List TransferRequestLog → Type 0
IsSorted [] = Unit
IsSorted (r ∷ rs) = All (IsAfter r.block_number) rs × IsSorted rs

insert-Has_new : (r : TransferRequestLog) (qs : List TransferRequestLog) → Has r (insert r qs)
unfolding insert
insert-Has_new r [] = inl refl
insert-Has_new r (q ∷ qs) =
    if_rule (Has r) (is_before r q) _ _ (λ h. inl refl) (λ h. inr (insert-Has_new r qs))

insert-Has_old :
    (x r : TransferRequestLog) (qs : List TransferRequestLog) → Has x qs → Has x (insert r qs)
unfolding insert
insert-Has_old x r [] m = absurd m
insert-Has_old x r (q ∷ qs) (inl e) =
    if_rule (Has x) (is_before r q) _ _ (λ h. inr (inl e)) (λ h. inl e)
insert-Has_old x r (q ∷ qs) (inr m) =
    if_rule (Has x) (is_before r q) _ _ (λ h. inr (inr m)) (λ h. inr (insert-Has_old x r qs m))

pub sort-Has : (x : TransferRequestLog) (l : List TransferRequestLog) → Has x l → Has x (sort l)
unfolding sort
sort-Has x [] m = absurd m
sort-Has x (r ∷ rs) (inl e) =
    subst (λ y. Has y (insert r (sort rs))) (sym e) (insert-Has_new r (sort rs))
sort-Has x (r ∷ rs) (inr m) = insert-Has_old x r (sort rs) (sort-Has x rs m)

module _ (P : TransferRequestLog → Type 0) where
  insert-All :
      (r : TransferRequestLog) (qs : List TransferRequestLog) → P r → All P qs → All P (insert r qs)
  unfolding insert
  insert-All r [] p v = (p, tt)
  insert-All r (q ∷ qs) p v =
      if_rule (All P) (is_before r q) _ _ (λ h. (p, v)) (λ h. (v.0, insert-All r qs p v.1))

  pub sort-All : (l : List TransferRequestLog) → All P l → All P (sort l)
  unfolding sort
  sort-All [] v = tt
  sort-All (r ∷ rs) v = insert-All r (sort rs) v.0 (sort-All rs v.1)

before-le : (a b : TransferRequestLog) → is_before a b ≡ true → a.block_number ≤ b.block_number
before-le a b h = ground arith

not_before-le : (a b : TransferRequestLog) → is_before a b ≡ false → b.block_number ≤ a.block_number
not_before-le a b h = ground arith

All-IsAfter :
    (a b : ℕ) (qs : List TransferRequestLog) → a ≤ b → All (IsAfter b) qs → All (IsAfter a) qs
All-IsAfter a b [] h v = tt
All-IsAfter a b (q ∷ qs) h v = (omega arith, All-IsAfter a b qs h v.1)

insert-IsSorted :
    (r : TransferRequestLog) (qs : List TransferRequestLog) → IsSorted qs → IsSorted (insert r qs)
unfolding insert
insert-IsSorted r [] v = (tt, tt)
insert-IsSorted r (q ∷ qs) v =
    if_rule IsSorted (is_before r q) _ _
      (λ h. ((before-le r q h, All-IsAfter _ _ qs (before-le r q h) v.0), v))
      (λ h. (
        insert-All (IsAfter q.block_number) r qs (not_before-le r q h) v.0,
        insert-IsSorted r qs v.1,
      ))

pub sort-IsSorted : (l : List TransferRequestLog) → IsSorted (sort l)
unfolding sort
sort-IsSorted [] = tt
sort-IsSorted (r ∷ rs) = insert-IsSorted r (sort rs) (sort-IsSorted rs)
