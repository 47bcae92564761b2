-- ===== src/Server/Token/Verifying.antt =====
-- What `verifyToken` of packages/web-sdk-server/src/token.ts accepts.
use beam_sdk_public.Common.{
  ℕ, ◌+◌, ◌/◌, ◌≤◌, ◌<◌, ◌≡◌, refl, ap, sym, ◌∙◌, subst, true, Option, none, some, List, [], ◌∷◌,
  if◌then◌else◌, arith, ◌==◌, Text, text_eq, text_eq→eq, text_eq_refl, includes, split_on,
  split_on-append, split_on-Free,
}
use beam_sdk_public.Server.Checked.{ServerError, Checked, ok, ensure-ok, ◌>>=◌}
use beam_sdk_public.Server.Token.{
  Claims, Crypto, IsCrypto, MintOptions, Minted, VerifyOptions, mint_token, claims_of, token_of,
  ttl_of, usable_secret, get_or, parts_of, or_fail, audience_matches, scopes_known, not_expired,
  issued_by, lifetime_ok, origin_matches, check_claims, verify_token, bwt_prefix, missing_scopes,
  assert_scopes, scopes_of, is_empty,
}
use beam_sdk_public.Server.Token.Minting.{IsMinted, mint_token-IsMinted}

abbrev tolerance_of : VerifyOptions → ℕ
tolerance_of v = get_or 30 v.clock_tolerance_seconds

-- The claims pass every check.
pub record AreAccepted (v : VerifyOptions) (c : Claims) : Type 0 where
  pub version : c.v ≡ 1
  pub audience : audience_matches v.audience c.aud ≡ true
  pub scopes : scopes_known c.scopes ≡ true
  pub live : not_expired (v.now / 1000) (tolerance_of v) c.exp ≡ true
  pub issued : issued_by (v.now / 1000) (tolerance_of v) c.iat ≡ true
  pub lifetime : lifetime_ok (tolerance_of v) c.iat c.exp ≡ true
  pub origin : origin_matches v.origin c.origin ≡ true

check_claims-ok : (v : VerifyOptions) (c : Claims) → AreAccepted v c → check_claims v c ≡ ok c
unfolding check_claims
check_claims-ok v c a =
    ground (arith, a.version, a.audience, a.scopes, a.live, a.issued, a.lifetime, a.origin)

check_claims-AreAccepted :
    (v : VerifyOptions) (c d : Claims) → check_claims v c ≡ ok d → (c ≡ d) × AreAccepted v c
unfolding check_claims
check_claims-AreAccepted v c d h =
    let (version, h₁) = ensure-ok (c.v == 1) _ _ h in
    let (audience, h₂) = ensure-ok (audience_matches v.audience c.aud) _ _ h₁ in
    let (scopes, h₃) = ensure-ok (scopes_known c.scopes) _ _ h₂ in
    let (live, h₄) = ensure-ok (not_expired (v.now / 1000) (tolerance_of v) c.exp) _ _ h₃ in
    let (issued, h₅) = ensure-ok (issued_by (v.now / 1000) (tolerance_of v) c.iat) _ _ h₄ in
    let (lifetime, h₆) = ensure-ok (lifetime_ok (tolerance_of v) c.iat c.exp) _ _ h₅ in
    let (origin, h₇) = ensure-ok (origin_matches v.origin c.origin) _ _ h₆ in
    (
      cc,
      record {
        version = ground arith;
        audience = audience;
        scopes = scopes;
        live = live;
        issued = issued;
        lifetime = lifetime;
        origin = origin;
      },
    )

token_of-parts :
    (w : Crypto) (secret : Text) (c : Claims)
    → IsCrypto w c
    → parts_of (split_on b'.' (token_of w secret c)) ≡ some (w.encode c, w.sign secret (w.encode c))
unfolding token_of parts_of
token_of-parts w secret c k =
    ap parts_of (
      split_on-append b'.' bwt_prefix _ (omega arith)
      ∙ ap (◌∷◌ bwt_prefix) (
          split_on-append b'.' (w.encode c) _ (k.encode-free)
          ∙ ap (◌∷◌ (w.encode c)) (split_on-Free b'.' _ (k.sign-free secret (w.encode c)))))
    ∙ ap (λ b. if b then some (w.encode c, w.sign secret (w.encode c)) else none)
        (text_eq_refl bwt_prefix)

claims-AreAccepted :
    (w : Crypto) (o : MintOptions) (m : Minted) (v : VerifyOptions)
    → IsMinted w o m
    → audience_matches v.audience (claims_of o).aud ≡ true
    → origin_matches v.origin o.origin ≡ true
    → o.now / 1000 ≤ v.now / 1000 + tolerance_of v
    → v.now / 1000 < o.now / 1000 + ttl_of o.ttl_seconds + tolerance_of v
    → AreAccepted v (claims_of o)
unfolding claims_of scopes_known not_expired issued_by lifetime_ok
claims-AreAccepted w o m v i aud org before after = record {
  version = refl;
  audience = aud;
  scopes = i.known;
  live = ground arith;
  issued = ground arith;
  lifetime = ground (arith, i.short_enough);
  origin = org;
}

-- A minted token verifies, under its secret, with its own claims, for a verifier that asks for its
-- audience and its origin, or for none: from its `iat` until its `exp`, both widened by the tolerance.
pub verify_token-mint_token :
    (w : Crypto) (o : MintOptions) (m : Minted) (v : VerifyOptions)
    → IsCrypto w m.claims
    → mint_token w o ≡ ok m
    → v.secret ≡ o.secret
    → audience_matches v.audience m.claims.aud ≡ true
    → origin_matches v.origin o.origin ≡ true
    → o.now / 1000 ≤ v.now / 1000 + get_or 30 v.clock_tolerance_seconds
    → v.now / 1000 < o.now / 1000 + m.expires_in + get_or 30 v.clock_tolerance_seconds
    → verify_token w m.token v ≡ ok m.claims
unfolding verify_token
verify_token-mint_token w o m v k minted same aud org before after =
    let i = mint_token-IsMinted w o m minted in
    let c = claims_of o in
    let payload = w.encode c in
    let k' = subst (IsCrypto w) i.claims k in
    let accepted =
      claims-AreAccepted w o m v i
        (subst (λ d. audience_matches v.audience d.aud ≡ true) i.claims aud) org before
        (omega (arith, i.expires_in)) in
    rw
      (
        i.token,
        i.claims,
        same,
        i.secret,
        token_of-parts w o.secret c k',
        text_eq_refl (w.sign o.secret payload),
        k'.decode-encode,
      )
      (check_claims-ok v c accepted)

or_fail-ok {ℓ} :
    {A B : Type ℓ} (o : Option A) (e : ServerError) (f : A → Checked B) {b : B}
    → (or_fail o e >>= f) ≡ ok b
    → (a : A) × (o ≡ some a) × (f a ≡ ok b)
or_fail-ok none e f h = cc
or_fail-ok (some a) e f h = (a, refl, h)

parts_of-some :
    (l : List Text) (q : Text × Text) → parts_of l ≡ some q → l ≡ bwt_prefix ∷ q.0 ∷ q.1 ∷ []
unfolding parts_of
parts_of-some (a ∷ p ∷ s ∷ []) q h = ground (arith, text_eq→eq a bwt_prefix)
parts_of-some [] q h = cc
parts_of-some (a ∷ []) q h = cc
parts_of-some (a ∷ b ∷ []) q h = cc
parts_of-some (a ∷ b ∷ c ∷ d ∷ l) q h = cc

-- An accepted token has three parts, of which the first is `bwt1` and the last the signature of the
-- second under the secret; the claims are those of the second part, and pass every check: version,
-- audience, known scopes, expiry, issue time, lifetime and origin.
pub verify_token_sound :
    (w : Crypto) (token : Text) (v : VerifyOptions) (c : Claims)
    → verify_token w token v ≡ ok c
    → (payload : Text) × (split_on b'.' token ≡ bwt_prefix ∷ payload ∷ w.sign v.secret payload ∷ [])
      × (w.decode payload ≡ some c)
      × AreAccepted v c
unfolding verify_token
verify_token_sound w token v c h =
    let (secret, h₁) = ensure-ok (usable_secret v.secret) _ _ h in
    let (q, e, h₂) = or_fail-ok (parts_of (split_on b'.' token)) _ _ h₁ in
    let (signed, h₃) = ensure-ok (text_eq (w.sign v.secret q.0) q.1) _ _ h₂ in
    let (d, decoded, h₄) = or_fail-ok (w.decode q.0) _ _ h₃ in
    let (same, accepted) = check_claims-AreAccepted v d c h₄ in
    let signature = text_eq→eq (w.sign v.secret q.0) q.1 signed in
    (
      q.0,
      parts_of-some (split_on b'.' token) q e ∙ ap (λ x. bwt_prefix ∷ q.0 ∷ x ∷ []) (sym signature),
      decoded ∙ ap some same,
      subst (AreAccepted v) same accepted,
    )

missing_lem :
    (c : Claims) (required : List Text) (t : Text)
    → is_empty (missing_scopes c required) ≡ true
    → includes required t ≡ true
    → includes (scopes_of c) t ≡ true
unfolding missing_scopes includes
missing_lem c [] t h k = cc
missing_lem c (s ∷ ss) t h k = ground (arith, missing_lem c ss t, text_eq→eq s t)

-- `assertScopes` passes only if the session has each of the required scopes.
pub assert_scopes_sound :
    (c : Claims) (required : List Text) (t : Text)
    → assert_scopes c required ≡ ok tt
    → includes required t ≡ true
    → includes (scopes_of c) t ≡ true
unfolding assert_scopes
assert_scopes_sound c required t h k = missing_lem c required t (ground arith) k
