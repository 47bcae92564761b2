-- ===== src/Server/Token/Minting.antt =====
-- What `mintToken` of packages/web-sdk-server/src/token.ts puts into a token.
use beam_sdk_public.Common.{
  ◌+◌, ◌/◌, ◌≤◌, ◌≡◌, ◌≢◌, refl, ap, sym, ◌∙◌, true, false, not, ◌||◌, some, List, [], ◌∷◌, ◌++◌,
  arith, ltb, Text, text_eq, text_eq→eq, text_eq_refl, includes, keep, if_rule,
}
use beam_sdk_public.Server.Checked.{ok, ensure-ok}
use beam_sdk_public.Server.Token.{
  Crypto, MintOptions, Minted, mint_token, claims_of, token_of, ttl_of, usable_secret,
  is_beam_scope, unique_from, insert_last, is_empty, all_beam_scopes,
}

includes-append :
    (t : Text) (xs ys : List Text) → includes (xs ++ ys) t ≡ (includes xs t || includes ys t)
unfolding includes
includes-append t [] ys = refl
includes-append t (x ∷ xs) ys = ground (arith, includes-append t xs ys)

-- No text stands twice.
abbrev pub Distinct : List Text → Type 0
Distinct [] = Unit
Distinct (s ∷ ss) = (includes ss s ≡ false) × Distinct ss

snoc-Distinct :
    (t : Text) (ss : List Text) → includes ss t ≡ false → Distinct ss → Distinct (ss ++ t ∷ [])
unfolding includes
snoc-Distinct t [] h d = (refl, tt)
snoc-Distinct t (s ∷ ss) h d = (
  ground (arith, includes-append s ss (t ∷ []), text_eq→eq t s, text_eq_refl t),
  snoc-Distinct t ss (ground arith) d.1,
)

insert_last-Distinct : (t : Text) (ss : List Text) → Distinct ss → Distinct (insert_last t ss)
unfolding insert_last
insert_last-Distinct t ss d =
    if_rule Distinct (includes ss t) _ _ (λ h. d) (λ h. snoc-Distinct t ss h d)

pub unique_from-Distinct : (seen ss : List Text) → Distinct seen → Distinct (unique_from seen ss)
unfolding unique_from
unique_from-Distinct seen [] d = d
unique_from-Distinct seen (s ∷ ss) d =
    unique_from-Distinct (insert_last s seen) ss (insert_last-Distinct s seen d)

includes-insert_last :
    (t s : Text) (seen : List Text)
    → includes (insert_last s seen) t ≡ (includes seen t || text_eq s t)
unfolding insert_last includes
includes-insert_last t s seen = ground (arith, includes-append t seen (s ∷ []), text_eq→eq s t)

-- The unique scopes are the requested ones.
pub includes-unique_from :
    (t : Text) (seen ss : List Text)
    → includes (unique_from seen ss) t ≡ (includes seen t || includes ss t)
unfolding unique_from includes
includes-unique_from t seen [] = ground arith
includes-unique_from t seen (s ∷ ss) =
    ground (arith, includes-unique_from t (insert_last s seen) ss, includes-insert_last t s seen)

none_left :
    (ss : List Text)
    → is_empty (keep (λ s. not (is_beam_scope s)) ss) ≡ true
    → all_beam_scopes ss ≡ true
unfolding all_beam_scopes
none_left [] h = refl
none_left (s ∷ ss) h = ground (arith, none_left ss)

abbrev pub unique : MintOptions → List Text
unique o = unique_from [] o.scopes

-- What the checks of `mintToken` establish.
pub record IsMinted (w : Crypto) (o : MintOptions) (m : Minted) : Type 0 where
  pub secret : usable_secret o.secret ≡ true
  pub nonempty : is_empty (unique o) ≡ false
  pub known : all_beam_scopes (unique o) ≡ true
  pub long_enough : 15 ≤ ttl_of o.ttl_seconds
  pub short_enough : ttl_of o.ttl_seconds ≤ 300
  pub token : m.token ≡ token_of w o.secret (claims_of o)
  pub claims : m.claims ≡ claims_of o
  pub expires_in : m.expires_in ≡ ttl_of o.ttl_seconds

ok_inj : {A : Type 0} {a b : A} → ok a ≡ ok b → a ≡ b
ok_inj e = cc

pub mint_token-IsMinted :
    (w : Crypto) (o : MintOptions) (m : Minted) → mint_token w o ≡ ok m → IsMinted w o m
unfolding mint_token
mint_token-IsMinted w o m h =
    let (secret, h₁) = ensure-ok (usable_secret o.secret) _ _ h in
    let (nonempty, h₂) = ensure-ok (not (is_empty (unique o))) _ _ h₁ in
    let (known, h₃) = ensure-ok (is_empty (keep (λ s. not (is_beam_scope s)) (unique o))) _ _ h₂ in
    let (long, h₄) = ensure-ok (not (ltb (ttl_of o.ttl_seconds) 15)) _ _ h₃ in
    record {
      secret = secret;
      nonempty = ground arith;
      known = none_left (unique o) known;
      long_enough = ground arith;
      short_enough = unfold ttl_of in omega arith;
      token = sym (ap (λ x. x.token) (ok_inj h₄));
      claims = sym (ap (λ x. x.claims) (ok_inj h₄));
      expires_in = sym (ap (λ x. x.expires_in) (ok_inj h₄));
    }

-- A token is minted only for a secret of at least 32 characters and for scopes all of which are known.
-- Its claims name each requested scope once and no other, at least one, and its lifetime, from 15 to
-- 300 seconds, is the difference between its `iat` and `exp`.
pub mint_token-bounds :
    (w : Crypto) (o : MintOptions) (m : Minted)
    → mint_token w o ≡ ok m
    → (m.claims.scopes ≡ some (unique o))
      × Distinct (unique o)
      × ((t : Text) → includes (unique o) t ≡ includes o.scopes t)
      × (unique o ≢ [])
      × (all_beam_scopes (unique o) ≡ true)
      × (15 ≤ m.expires_in)
      × (m.expires_in ≤ 300)
      × (m.claims.iat ≡ some (o.now / 1000))
      × (m.claims.exp ≡ some (o.now / 1000 + m.expires_in))
      × (usable_secret o.secret ≡ true)
unfolding claims_of includes
mint_token-bounds w o m h =
    let i = mint_token-IsMinted w o m h in
    (
      ap (λ c. c.scopes) i.claims,
      unique_from-Distinct [] o.scopes tt,
      λ t. includes-unique_from t [] o.scopes,
      λ e. ground (arith, i.nonempty),
      i.known,
      omega (arith, i.long_enough, i.expires_in),
      omega (arith, i.short_enough, i.expires_in),
      ap (λ c. c.iat) i.claims,
      ap (λ c. c.exp) i.claims ∙ ap (λ n. some (o.now / 1000 + n)) (sym i.expires_in),
      i.secret,
    )
