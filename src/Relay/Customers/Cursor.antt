-- ===== src/Relay/Customers/Cursor.antt =====
-- How the cursor of a customer's listing moves.
use beam_sdk_public.Common.{
  ℕ, ◌≤◌, ◌<◌, ◌≡◌, refl, ◌⊎◌, inl, inr, max, Bool, true, false, Option, none, some, List, [], ◌∷◌,
  ltb, leb, if_rule, Bool-cases, All, Has, arith,
}
use beam_sdk_public.Relay.Customers.{
  Listed, lower, oldest_pending, newest, cursor_before, next_transfer_cursor,
}

abbrev pub IsPending : Listed → Type 0
IsPending x = x.done ≡ false

-- A bound from below for those that are not done.
abbrev IsOldest : Option ℕ → Listed → Type 0
IsOldest none x = IsPending x → ⊥
IsOldest (some o) x = IsPending x → o ≤ x.completed_at

IsOldest-lower : (n : ℕ) (o : Option ℕ) (x : Listed) → IsOldest o x → IsOldest (some (lower n o)) x
IsOldest-lower n none x v p = absurd (v p)
IsOldest-lower n (some m) x v p = omega (arith, v p)

All-lower :
    (n : ℕ) (o : Option ℕ) (xs : List Listed)
    → All (IsOldest o) xs
    → All (IsOldest (some (lower n o))) xs
All-lower n o [] v = tt
All-lower n o (x ∷ xs) v = (IsOldest-lower n o x v.0, All-lower n o xs v.1)

lower-le : (n : ℕ) (o : Option ℕ) → lower n o ≤ n
lower-le n none = omega arith
lower-le n (some m) = omega arith

apart : (b : Bool) → b ≡ true → b ≡ false → ⊥
apart b d p = cc (d, p)

done-IsOldest : (o : Option ℕ) (x : Listed) → x.done ≡ true → IsOldest o x
done-IsOldest none x d = λ p. apart x.done d p
done-IsOldest (some o) x d = λ p. absurd (apart x.done d p)

oldest_pending-IsOldest : (xs : List Listed) → All (IsOldest (oldest_pending xs)) xs
oldest_pending-IsOldest [] = tt
oldest_pending-IsOldest (x ∷ xs) =
    let rest = oldest_pending xs in
    let ih = oldest_pending-IsOldest xs in
    if_rule (λ (o : Option ℕ). All (IsOldest o) (x ∷ xs)) x.done rest
      (some (lower x.completed_at rest)) (λ d. (done-IsOldest rest x d, ih))
      (λ d. ((λ p. lower-le x.completed_at rest), All-lower x.completed_at rest xs ih))

-- A pending transfer that was completed no later than at a time.
abbrev pub HasPending : ℕ → List Listed → Type 0
HasPending t xs = (y : Listed) × Has y xs × IsPending y × (y.completed_at ≤ t)

abbrev IsMet : List Listed → Option ℕ → Type 0
IsMet xs none = Unit
IsMet xs (some o) = HasPending o xs

IsMet-lower :
    (x : Listed) (xs : List Listed) (o : Option ℕ)
    → IsPending x
    → IsMet xs o
    → IsMet (x ∷ xs) (some (lower x.completed_at o))
IsMet-lower x xs none p v = (x, inl refl, p, omega arith)
IsMet-lower x xs (some m) p (y, h, q, l) = elim (Bool-cases (leb x.completed_at m)) [
  | inl e ↦ (x, inl refl, p, ground arith)
  | inr e ↦ (y, inr h, q, ground arith)
]

IsMet-later : (x : Listed) (xs : List Listed) (o : Option ℕ) → IsMet xs o → IsMet (x ∷ xs) o
IsMet-later x xs none v = tt
IsMet-later x xs (some m) (y, h, q, l) = (y, inr h, q, l)

oldest_pending-IsMet : (xs : List Listed) → IsMet xs (oldest_pending xs)
oldest_pending-IsMet [] = tt
oldest_pending-IsMet (x ∷ xs) =
    let rest = oldest_pending xs in
    if_rule (IsMet (x ∷ xs)) x.done rest (some (lower x.completed_at rest))
      (λ d. IsMet-later x xs rest (oldest_pending-IsMet xs))
      (λ d. IsMet-lower x xs rest d (oldest_pending-IsMet xs))

newest-ge : (n : ℕ) (xs : List Listed) → n ≤ newest n xs
newest-ge n [] = omega arith
newest-ge n (x ∷ xs) = omega (arith, newest-ge n xs)

newest-All : (n : ℕ) (xs : List Listed) → All (λ (x : Listed). x.completed_at ≤ newest n xs) xs
newest-All n [] = tt
newest-All n (x ∷ xs) = (
  omega arith,
  All-le (newest n xs) (max x.completed_at (newest n xs)) xs (omega arith) (newest-All n xs),
)
  where
    All-le :
        (a b : ℕ) (ys : List Listed)
        → a ≤ b
        → All (λ (y : Listed). y.completed_at ≤ a) ys
        → All (λ (y : Listed). y.completed_at ≤ b) ys
    All-le a b [] h v = tt
    All-le a b (y ∷ ys) h v = (omega arith, All-le a b ys h v.1)

-- The next listing has every pending transfer again, and each transfer is passed unless one that was
-- completed no later is pending.
abbrev pub IsPlaced : ℕ → ℕ → List Listed → Listed → Type 0
IsPlaced cursor next xs x =
    (IsPending x → cursor < x.completed_at → next < x.completed_at)
    × ((x.completed_at ≤ next) ⊎ HasPending x.completed_at xs)

place :
    (cursor : ℕ) (xs : List Listed) (o : Option ℕ) (x : Listed)
    → IsMet xs o
    → IsOldest o x
    → x.completed_at ≤ newest cursor xs
    → IsPlaced cursor (cursor_before cursor xs o) xs x
place cursor xs none x met old h = (λ p c. absurd (old p), inl h)
place cursor xs (some o) x (y, m, q, l) old h = (
  λ p c. omega (arith, old p),
  elim (Bool-cases (ltb x.completed_at o)) [
    | inl e ↦ inl (ground arith)
    | inr e ↦ inr (y, m, q, ground arith)
  ],
)

place-All :
    (cursor : ℕ) (xs ys : List Listed) (o : Option ℕ)
    → IsMet xs o
    → All (IsOldest o) ys
    → All (λ (x : Listed). x.completed_at ≤ newest cursor xs) ys
    → All (IsPlaced cursor (cursor_before cursor xs o) xs) ys
place-All cursor xs [] o m v w = tt
place-All cursor xs (y ∷ ys) o m v w =
    (place cursor xs o y m v.0 w.0, place-All cursor xs ys o m v.1 w.1)

cursor_before-ge :
    (cursor : ℕ) (xs : List Listed) (o : Option ℕ) → cursor ≤ cursor_before cursor xs o
cursor_before-ge cursor xs none = newest-ge cursor xs
cursor_before-ge cursor xs (some o) = omega arith

-- The cursor of a listing never moves back. It stays before every listed transfer that is not done, so
-- that the next listing has it again; and it passes each of the others, unless one that was completed no
-- later is not done.
pub next_transfer_cursor_lem :
    (cursor : ℕ) (listed : List Listed)
    → let next = next_transfer_cursor cursor listed in
      (cursor ≤ next) × All (IsPlaced cursor next listed) listed
unfolding next_transfer_cursor
next_transfer_cursor_lem cursor listed =
    let o = oldest_pending listed in
    (
      cursor_before-ge cursor listed o,
      place-All cursor listed listed o (oldest_pending-IsMet listed)
          (oldest_pending-IsOldest listed) (newest-All cursor listed),
    )
