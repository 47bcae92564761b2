-- ===== src/Receipts/TransferId/Spelling.antt =====
-- The two spellings of a transfer id, as a UUID and as sixteen bytes in hex.

use beam_sdk_public.Common.{
  ℕ, zero, suc, ◌-◌, ◌≤◌, ◌≡◌, ◌≢◌, refl, ap, ◌∙◌, subst, Bool, true, false, not, Option, none,
  some, List, [], ◌∷◌, ◌++◌, if◌then◌else◌, ◌==◌, Text, codes, keep, take, drop, length, split_on,
  join_by, split_on-append, split_on-Free, Free, All, if_rule, some_inj, arith,
}
use beam_sdk_public.Receipts.TransferId.{
  lower_char, to_lower, is_hex, every, is_hex_of, is_bytes, hex_groups, uuid_groups, is_uuid,
  normalize_transfer_id, prefixed, transfer_id_to_bytes16, pieces, uuid_of, bytes16_to_transfer_id,
}

-- A hex digit, which is no dash and is its own lower case.
abbrev IsDigit : ℕ → Type 0
IsDigit c = (is_hex c ≡ true) × (c ≢ 45) × (lower_char c ≡ c)

digit : (c : ℕ) → is_hex c ≡ true → IsDigit c
unfolding is_hex
digit c h = (h, ground arith, ground arith)

digits : (s : Text) → every is_hex s ≡ true → All IsDigit s
unfolding every
digits [] h = tt
digits (c ∷ s) h = (digit c (ground arith), digits s (ground arith))

take-All : (n : ℕ) (s : Text) → All IsDigit s → All IsDigit (take n s)
take-All zero s v = tt
take-All (suc n) [] v = tt
take-All (suc n) (c ∷ s) v = (v.0, take-All n s v.1)

drop-All : (n : ℕ) (s : Text) → All IsDigit s → All IsDigit (drop n s)
drop-All zero s v = v
drop-All (suc n) [] v = tt
drop-All (suc n) (c ∷ s) v = drop-All n s v.1

length-take : (n : ℕ) (s : Text) → n ≤ length s → length (take n s) ≡ n
length-take zero s h = refl
length-take (suc n) [] h = omega arith
length-take (suc n) (c ∷ s) h = omega (arith, length-take n s (omega arith))

length-drop : (n : ℕ) (s : Text) → length (drop n s) ≡ length s - n
length-drop zero s = omega arith
length-drop (suc n) [] = omega arith
length-drop (suc n) (c ∷ s) = omega (arith, length-drop n s)

take-drop : (n : ℕ) (s : Text) → take n s ++ drop n s ≡ s
take-drop zero s = refl
take-drop (suc n) [] = refl
take-drop (suc n) (c ∷ s) = ap (λ t. c ∷ t) (take-drop n s)

every-digits : (s : Text) → All IsDigit s → every is_hex s ≡ true
unfolding every
every-digits [] v = refl
every-digits (c ∷ s) v = ground (arith, v.0.0, every-digits s v.1)

All-Free : (s : Text) → All IsDigit s → Free 45 s
All-Free [] v = tt
All-Free (c ∷ s) v = (v.0.1, All-Free s v.1)

to_lower-append : (s t : Text) → All IsDigit s → to_lower (s ++ t) ≡ s ++ to_lower t
unfolding to_lower
to_lower-append [] t v = refl
to_lower-append (c ∷ s) t v = rw (v.0.2, to_lower-append s t v.1) refl

to_lower-digits : (s : Text) → All IsDigit s → to_lower s ≡ s
unfolding to_lower
to_lower-digits [] v = refl
to_lower-digits (c ∷ s) v = rw (v.0.2, to_lower-digits s v.1) refl

no_dash : ℕ → Bool
no_dash c = not (c == 45)

keep-append :
    (s t : Text) → Free 45 s → keep (λ c. not (c == 45)) (s ++ t) ≡ s ++ keep (λ c. not (c == 45)) t
keep-append [] t v = refl
keep-append (c ∷ s) t v = ground (arith, v.0, keep-append s t v.1)

keep-Free : (s : Text) → Free 45 s → keep (λ c. not (c == 45)) s ≡ s
keep-Free [] v = refl
keep-Free (c ∷ s) v = ground (arith, v.0, keep-Free s v.1)

joined : List Text → Text
joined [] = []
joined (p ∷ []) = p
joined (p ∷ q ∷ ps) = p ++ joined (q ∷ ps)

-- Groups of digits, with dashes between them: split again, in lower case, and without the dashes.
split_on-join_by :
    (p : Text) (ps : List Text)
    → All (All IsDigit) (p ∷ ps)
    → split_on 45 (join_by 45 (p ∷ ps)) ≡ p ∷ ps
unfolding join_by
split_on-join_by p [] v = split_on-Free 45 p (All-Free p v.0)
split_on-join_by p (q ∷ qs) v =
    split_on-append 45 p (join_by 45 (q ∷ qs)) (All-Free p v.0)
    ∙ ap (λ (l : List Text). p ∷ l) (split_on-join_by q qs v.1)

to_lower-join_by :
    (p : Text) (ps : List Text)
    → All (All IsDigit) (p ∷ ps)
    → to_lower (join_by 45 (p ∷ ps)) ≡ join_by 45 (p ∷ ps)
unfolding join_by to_lower
to_lower-join_by p [] v = to_lower-digits p v.0
to_lower-join_by p (q ∷ qs) v =
    to_lower-append p (45 ∷ join_by 45 (q ∷ qs)) v.0
    ∙ ap (λ (t : Text). p ++ 45 ∷ t) (to_lower-join_by q qs v.1)

keep-join_by :
    (p : Text) (ps : List Text)
    → All (All IsDigit) (p ∷ ps)
    → keep (λ c. not (c == 45)) (join_by 45 (p ∷ ps)) ≡ joined (p ∷ ps)
unfolding join_by joined
keep-join_by p [] v = keep-Free p (All-Free p v.0)
keep-join_by p (q ∷ qs) v =
    keep-append p (45 ∷ join_by 45 (q ∷ qs)) (All-Free p v.0)
    ∙ ap (λ (t : Text). p ++ t) (keep-join_by q qs v.1)

group : (n : ℕ) (s : Text) → length s ≡ n → All IsDigit s → is_hex_of n s ≡ true
group n s e v = rw (every-digits s v) (ground arith)

-- The groups of a UUID.
module _ (h : Text) (v : All IsDigit h) where
  pieces-digits : All (All IsDigit) (pieces uuid_groups h)
  pieces-digits =
      let v1 = drop-All 8 h v in
      let v2 = drop-All 4 (drop 8 h) v1 in
      let v3 = drop-All 4 (drop 4 (drop 8 h)) v2 in
      let v4 = drop-All 4 (drop 4 (drop 4 (drop 8 h))) v3 in
      (take-All 8 h v, (take-All 4 _ v1, (take-All 4 _ v2, (take-All 4 _ v3, (v4, tt)))))

  joined-pieces : joined (pieces uuid_groups h) ≡ h
  unfolding joined
  joined-pieces =
      let h1 = drop 8 h in
      let h2 = drop 4 h1 in
      let h3 = drop 4 h2 in
      ap (λ (t : Text). take 8 h ++ t)
        (ap (λ (t : Text). take 4 h1 ++ t)
            (ap (λ (t : Text). take 4 h2 ++ t) (take-drop 4 h3) ∙ take-drop 4 h2)
          ∙ take-drop 4 h1)
      ∙ take-drop 8 h

  groups-pieces : length h ≡ 32 → hex_groups uuid_groups (pieces uuid_groups h) ≡ true
  groups-pieces e =
      let h1 = drop 8 h in
      let h2 = drop 4 h1 in
      let h3 = drop 4 h2 in
      let h4 = drop 4 h3 in
      let w = pieces-digits in
      let e1 : length h1 ≡ 24 = omega (arith, length-drop 8 h) in
      let e2 : length h2 ≡ 20 = omega (arith, length-drop 4 h1) in
      let e3 : length h3 ≡ 16 = omega (arith, length-drop 4 h2) in
      let e4 : length h4 ≡ 12 = omega (arith, length-drop 4 h3) in
      rw
        (
          group 8 (take 8 h) (length-take 8 h (omega arith)) w.0,
          group 4 (take 4 h1) (length-take 4 h1 (omega arith)) w.1.0,
          group 4 (take 4 h2) (length-take 4 h2 (omega arith)) w.1.1.0,
          group 4 (take 4 h3) (length-take 4 h3 (omega arith)) w.1.1.1.0,
          group 12 h4 e4 w.1.1.1.1.0,
        )
        refl

is_uuid-uuid_of : (h : Text) → All IsDigit h → length h ≡ 32 → is_uuid (uuid_of h) ≡ true
unfolding is_uuid uuid_of
is_uuid-uuid_of h v e =
    ap (hex_groups uuid_groups) (split_on-join_by (take 8 h) _ (pieces-digits h v))
    ∙ groups-pieces h v e

to_lower-uuid_of : (h : Text) → All IsDigit h → to_lower (uuid_of h) ≡ uuid_of h
unfolding uuid_of
to_lower-uuid_of h v = to_lower-join_by (take 8 h) _ (pieces-digits h v)

keep-uuid_of : (h : Text) → All IsDigit h → keep (λ c. not (c == 45)) (uuid_of h) ≡ h
unfolding uuid_of
keep-uuid_of h v = keep-join_by (take 8 h) _ (pieces-digits h v) ∙ joined-pieces h v

prefixed_if :
    (b : Bool) (t : Text) → b ≡ true → prefixed (if b then some t else none) ≡ prefixed (some t)
prefixed_if true t e = refl
prefixed_if false t e = cc

transfer_id_to_bytes16-uuid_of :
    (h : Text)
    → All IsDigit h
    → length h ≡ 32
    → transfer_id_to_bytes16 (uuid_of h) ≡ some (codes "0x" ++ h)
unfolding transfer_id_to_bytes16 normalize_transfer_id
transfer_id_to_bytes16-uuid_of h v e =
    let u : Text = uuid_of h in
    ap (λ t. prefixed (if is_uuid t then some t else none)) (to_lower-uuid_of h v)
    ∙ prefixed_if (is_uuid u) u (is_uuid-uuid_of h v e)
    ∙ ap (λ (t : Text). some (codes "0x" ++ t)) (keep-uuid_of h v)

-- What `/^0x[0-9a-f]{n}$/` matches.
bytes_form :
    (n : ℕ) (t : Text)
    → is_bytes n t ≡ true
    → (h : Text) × (t ≡ codes "0x" ++ h) × (length h ≡ n) × (every is_hex h ≡ true)
bytes_form n [] e = cc
bytes_form n (a ∷ []) e = cc
bytes_form n (a ∷ b ∷ h) e = (h, ground arith, ground arith, ground arith)

-- Sixteen bytes in hex that are spelled as a transfer id are spelled as a UUID, which reads back as the
-- same bytes, in lower case.
pub transfer_id_to_bytes16-bytes16_to_transfer_id :
    (value id : Text)
    → bytes16_to_transfer_id value ≡ some id
    → (is_uuid id ≡ true) × (transfer_id_to_bytes16 id ≡ some (to_lower value))
unfolding bytes16_to_transfer_id
transfer_id_to_bytes16-bytes16_to_transfer_id value id =
    let Reads : Text → Type 0 =
      λ u. (is_uuid u ≡ true) × (transfer_id_to_bytes16 u ≡ some (to_lower value)) in
    if_rule (λ (o : Option Text). o ≡ some id → Reads id) (is_bytes 32 (to_lower value)) _ _
      (λ y e.
        let (h, f, l, d) = bytes_form 32 (to_lower value) y in
        subst Reads (some_inj e) (
          rw f (is_uuid-uuid_of h (digits h d) l, transfer_id_to_bytes16-uuid_of h (digits h d) l)))
      (λ n e. cc)
