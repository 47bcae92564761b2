-- ===== src/Bridge/Signatures/Quorum.antt =====
-- What the accepted signers of a report are.
use beam_sdk_public.Common.{
  ℕ, ◌+◌, ◌≡◌, ◌≢◌, ◌≤◌, refl, sym, subst, Bool, true, false, ◌||◌, Option, none, some, some_inj,
  List, [], ◌∷◌, ◌++◌, if_rule, Bool-cases, inl, inr, Text, text_eq, text_eq→eq, text_eq_refl, Has,
  All, includes, length, length-append, ltb, arith, ◌==◌,
}
use beam_sdk_public.Bridge.Signatures.{
  SignedReport, Curve, SignerSet, report_digest, signer_of, add_signer, accept, accept_all,
  verify_report_signatures,
}

includes-Has : (xs : List Text) (a : Text) → includes xs a ≡ true → Has a xs
unfolding includes
includes-Has [] a e = cc
includes-Has (x ∷ xs) a e = elim (Bool-cases (text_eq x a)) [
  | inl same ↦ inl (sym (text_eq→eq x a same))
  | inr other ↦ inr (includes-Has xs a (rest (text_eq x a) other e))
]
  where
    rest : (b : Bool) → b ≡ false → (b || includes xs a) ≡ true → includes xs a ≡ true
    rest true n e = cc
    rest false n e = e

-- No two are the same.
abbrev pub IsDistinct : List Text → Type 0
IsDistinct [] = Unit
IsDistinct (x ∷ xs) = All (λ (y : Text). y ≢ x) xs × IsDistinct xs

All-end : (P : Text → Type 0) (xs : List Text) (a : Text) → All P xs → P a → All P (xs ++ a ∷ [])
All-end P [] a v p = (p, tt)
All-end P (x ∷ xs) a v p = (v.0, All-end P xs a v.1 p)

IsDistinct-end :
    (xs : List Text) (a : Text) → includes xs a ≡ false → IsDistinct xs → IsDistinct (xs ++ a ∷ [])
unfolding includes
IsDistinct-end [] a e d = (tt, tt)
IsDistinct-end (x ∷ xs) a e d =
    let parts = split (text_eq x a) refl e in
    (All-end (λ (y : Text). y ≢ x) xs a d.0 parts.0, IsDistinct-end xs a parts.1 d.1)
  where
    split :
        (b : Bool)
        → text_eq x a ≡ b
        → (b || includes xs a) ≡ false
        → (a ≢ x) × (includes xs a ≡ false)
    split true q f = cc
    split false q f = ((λ same. differs (sym same)), f)
      where
        differs : x ≢ a
        differs e2 = cc (text_eq_refl a, e2, q)

module _ (c : Curve) (required : ℕ) (digest : List ℕ) (signers : List Text) where
  -- A signer of the set, whom one of the signatures gives.
  abbrev pub IsSigner : List (List ℕ) → Text → Type 0
  IsSigner given a = Has a signers × ((s : List ℕ) × Has s given × (signer_of c digest s ≡ some a))

  abbrev IsQuorum : List (List ℕ) → List Text → Type 0
  IsQuorum given xs = IsDistinct xs × All (IsSigner given) xs × (length xs ≤ required)

  accept-IsQuorum :
      (given : List (List ℕ)) (s : List ℕ) (o : Option Text) (xs : List Text)
      → signer_of c digest s ≡ o
      → Has s given
      → (length xs ≡ required → ⊥)
      → IsQuorum given xs
      → IsQuorum given (accept signers o xs)
  accept-IsQuorum given s none xs e m n v = v
  accept-IsQuorum given s (some a) xs e m n v =
      if_rule (IsQuorum given) (includes signers a) (add_signer a xs) xs
        (λ known.
          if_rule (IsQuorum given) (includes xs a) xs (xs ++ a ∷ []) (λ old. v)
            (λ new. (
              IsDistinct-end xs a new v.0,
              All-end (IsSigner given) xs a v.1 (includes-Has signers a known, (s, m, e)),
              (let size = length-append xs (a ∷ []) in ground (arith, size, n, v.2)),
            )))
        (λ unknown. v)

  accept_all-IsQuorum :
      (given ss : List (List ℕ)) (xs : List Text)
      → ((s : List ℕ) → Has s ss → Has s given)
      → IsQuorum given xs
      → IsQuorum given (accept_all c required digest signers ss xs)
  unfolding accept_all
  accept_all-IsQuorum given [] xs m v = v
  accept_all-IsQuorum given (s ∷ ss) xs m v =
      if_rule (IsQuorum given) (length xs == required) xs _ (λ full. v)
        (λ more.
          accept_all-IsQuorum given ss _ (λ t i. m t (inr i))
            (accept-IsQuorum given s (signer_of c digest s) xs refl (m s (inl refl))
              (λ e. ground (arith, more, e)) v))

-- The signers that verification accepts are exactly f + 1, no two the same, all in the DON's set, and each is
-- recovered from one of the report's signatures over the report's digest.
pub verify_report_signatures_lem :
    (c : Curve) (r : SignedReport) (set : SignerSet) (accepted : List Text)
    → verify_report_signatures c r set ≡ some accepted
    → (length accepted ≡ set.f + 1)
      × IsDistinct accepted
      × All
          (IsSigner c (set.f + 1) (report_digest c r.raw_report r.context) set.signers r.signatures)
          accepted
unfolding verify_report_signatures
verify_report_signatures_lem c r set accepted =
    let digest = report_digest c r.raw_report r.context in
    let found = accept_all c (set.f + 1) digest set.signers r.signatures [] in
    let q =
      accept_all-IsQuorum c (set.f + 1) digest set.signers r.signatures r.signatures [] (λ s i. i)
        (tt, tt, omega arith) in
    if_rule
      (λ (o : Option (List Text)).
        o ≡ some accepted
        → (length accepted ≡ set.f + 1)
          × IsDistinct accepted
          × All (IsSigner c (set.f + 1) digest set.signers r.signatures) accepted)
      (ltb (length found) (set.f + 1)) none (some found) (λ few e. cc)
      (λ enough e.
        let same : found ≡ accepted = some_inj e in
        subst
          (λ (x : List Text).
            (length x ≡ set.f + 1)
            × IsDistinct x
            × All (IsSigner c (set.f + 1) digest set.signers r.signatures) x)
          same ((let n = q.2 in ground (arith, enough, n)), q.0, q.1))
