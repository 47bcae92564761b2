-- ===== src/Sdk/Splitting/Covering.antt =====
-- sdks/typescript/src/nats-control.ts: the batches of `splitRoutesForPayload`.
use beam_sdk_public.Common.{
  ℕ, zero, suc, ◌+◌, ◌-◌, ◌/◌, ◌≤◌, ◌<◌, ◌≡◌, refl, sym, ap, ◌∙◌, subst, Bool, true, if_rule,
  Bool-cases, Option, some, ◌⊎◌, inl, inr, List, [], ◌∷◌, ◌++◌, leb, leb→le, ltb, ltb→lt, ◌==◌,
  length, take, drop, All, Has, arith,
}
use beam_sdk_public.Sdk.{SignedChunkRoute}
use beam_sdk_public.Sdk.Splitting.{
  Control, target_payload_bytes, encoded_bytes, is_accepted, search, Split, chunks, throws,
  cons_chunk, Count, takes, too_large, count_of, counted, next_count, split_at, split_from,
  split_routes_for_payload,
}

-- A binary search ends, and yields what it was given or a count between the bounds that passes the test.
search_total :
    (fuel : ℕ) (fits : ℕ → Bool) (low high accepted : ℕ)
    → 0 < low
    → 0 < fuel
    → high + 1 < low + fuel
    → (n : ℕ) × (search fuel fits low high accepted ≡ some n)
      × ((n ≡ accepted) ⊎ ((fits n ≡ true) × (low ≤ n) × (n ≤ high)))
unfolding search
search_total zero fits low high accepted p f e = absurd (omega (arith, f))
search_total (suc fuel) fits low high accepted p f e = elim (Bool-cases (leb low high)) [
  | inr q ↦ rw (search, q) (accepted, refl, inl refl)
  | inl q ↦
      (let le = leb→le low high q in
        elim (Bool-cases (fits ((low + high) / 2))) [
          | inl t ↦
              (let (n, r, v) =
                  search_total fuel fits ((low + high) / 2 + 1) high ((low + high) / 2)
                    (omega arith) (omega (arith, le, e)) (omega (arith, le, e)) in
                rw (search, q, t)
                  (
                    n,
                    r,
                    elim v [
                      | inl same ↦
                          inr (ap fits same ∙ t, omega (arith, same, le), omega (arith, same, le))
                      | inr (ok, a, b) ↦ inr (ok, omega (arith, le, a), b)
                    ],
                  ))
          | inr t ↦
              (let (n, r, v) =
                  search_total fuel fits low ((low + high) / 2 - 1) accepted p
                    (omega (arith, le, e)) (omega (arith, le, e, p)) in
                rw (search, q, t)
                  (
                    n,
                    r,
                    elim v [
                      | inl same ↦ inl same
                      | inr (ok, a, b) ↦ inr (ok, a, omega (arith, le, b))
                    ],
                  ))
        ])
]

-- The batches one after the other.
abbrev pub joined : List (List SignedChunkRoute) → List SignedChunkRoute
joined [] = []
joined (c ∷ cs) = c ++ joined cs

-- A batch that has a route and is sent within the limit, and within the target unless it is a single route.
abbrev pub Fits : Control → List SignedChunkRoute → Type 0
Fits c chunk =
    (0 < length chunk)
    × (encoded_bytes c chunk ≤ c.max_payload_bytes)
    × ((encoded_bytes c chunk ≤ target_payload_bytes c) ⊎ (length chunk ≡ 1))

-- All routes in their order, in batches that fit; or one of them alone is above the limit.
abbrev pub Splits : Control → List SignedChunkRoute → Split → Type 0
Splits c routes (chunks cs) = (joined cs ≡ routes) × All (Fits c) cs
Splits c routes (throws bytes) =
    (r : SignedChunkRoute) × Has r routes
    × (encoded_bytes c (r ∷ []) ≡ bytes)
    × (c.max_payload_bytes < bytes)

take-drop : (n : ℕ) (rs : List SignedChunkRoute) → take n rs ++ drop n rs ≡ rs
take-drop zero rs = refl
take-drop (suc n) [] = refl
take-drop (suc n) (r ∷ rs) = ap (λ m. r ∷ m) (take-drop n rs)

length-take : (n : ℕ) (rs : List SignedChunkRoute) → n ≤ length rs → length (take n rs) ≡ n
length-take zero rs e = refl
length-take (suc n) [] e = absurd (omega (arith, e))
length-take (suc n) (r ∷ rs) e = ap suc (length-take n rs (omega (arith, e)))

length-drop : (n : ℕ) (rs : List SignedChunkRoute) → 0 < n → length (drop n rs) ≤ length rs - 1
length-drop zero rs e = absurd (omega (arith, e))
length-drop (suc zero) [] e = omega arith
length-drop (suc zero) (r ∷ rs) e = omega arith
length-drop (suc (suc n)) [] e = omega arith
length-drop (suc (suc n)) (r ∷ rs) e =
    (let h = length-drop (suc n) rs (omega arith) in omega (arith, h))

Has-drop :
    (n : ℕ) (r : SignedChunkRoute) (rs : List SignedChunkRoute) → Has r (drop n rs) → Has r rs
Has-drop zero r rs h = h
Has-drop (suc n) r [] h = h
Has-drop (suc n) r (q ∷ rs) h = inr (Has-drop n r rs h)

module _ (c : Control) where
  abbrev Counts : SignedChunkRoute → List SignedChunkRoute → Count → Type 0
  Counts r rs (takes n) = (0 < n) × Fits c (take n (r ∷ rs))
  Counts r rs (too_large bytes) = (encoded_bytes c (r ∷ []) ≡ bytes) × (c.max_payload_bytes < bytes)

  single-Counts :
      (r : SignedChunkRoute) (rs : List SignedChunkRoute) → Counts r rs (count_of c (r ∷ rs) 0)
  single-Counts r rs =
      let bytes = encoded_bytes c (r ∷ []) in
      if_rule (Counts r rs) (ltb c.max_payload_bytes bytes) _ _
        (λ q. (refl, ltb→lt c.max_payload_bytes bytes q))
        (λ q. (omega arith, (omega arith, ground (arith, q), inr refl)))

  accepted-Counts :
      (r : SignedChunkRoute) (rs : List SignedChunkRoute) (n : ℕ)
      → is_accepted c (r ∷ rs) n ≡ true
      → 1 ≤ n
      → n ≤ length (r ∷ rs)
      → Counts r rs (count_of c (r ∷ rs) n)
  accepted-Counts r rs zero t a b = absurd (omega (arith, a))
  accepted-Counts r rs (suc n) t a b =
      let le = leb→le (encoded_bytes c (take (suc n) (r ∷ rs))) (target_payload_bytes c) t in
      if_rule (Counts r rs) (suc n == 0) _ _ (λ q. absurd (ground (arith, q)))
        (λ q. (omega arith, (omega arith, omega (arith, le), inl le)))

  next_count_total :
      (r : SignedChunkRoute) (rs : List SignedChunkRoute)
      → (k : Count) × (next_count c (r ∷ rs) ≡ some k) × Counts r rs k
  next_count_total r rs =
      let (n, found, v) =
        search_total (suc (length (r ∷ rs))) (is_accepted c (r ∷ rs)) 1 (length (r ∷ rs)) 0
          (omega arith) (omega arith) (omega arith) in
      (
        count_of c (r ∷ rs) n,
        ap (counted c (r ∷ rs)) found,
        elim v [
          | inl none_fits ↦
              subst (λ m. Counts r rs (count_of c (r ∷ rs) m)) (sym none_fits) (single-Counts r rs)
          | inr (t, a, b) ↦ accepted-Counts r rs n t a b
        ],
      )

  abbrev Ends : List SignedChunkRoute → Option Split → Type 0
  Ends routes o = (s : Split) × (o ≡ some s) × Splits c routes s

  cons_chunk-Ends :
      (n : ℕ) (routes : List SignedChunkRoute) (o : Option Split)
      → Fits c (take n routes)
      → Ends (drop n routes) o
      → Ends routes (cons_chunk (take n routes) o)
  cons_chunk-Ends n routes o fits (throws bytes, e, (r, h, q, v)) =
      (throws bytes, ap (cons_chunk (take n routes)) e, (r, Has-drop n r routes h, q, v))
  cons_chunk-Ends n routes o fits (chunks cs, e, (same, v)) = (
    chunks (take n routes ∷ cs),
    ap (cons_chunk (take n routes)) e,
    (ap (λ rest. take n routes ++ rest) same ∙ take-drop n routes, (fits, v)),
  )

  split_at-Ends :
      (r : SignedChunkRoute) (rs : List SignedChunkRoute) (k : Count)
      (continue : List SignedChunkRoute → Option Split)
      → Counts r rs k
      → ((rest : List SignedChunkRoute) → length rest ≤ length rs → Ends rest (continue rest))
      → Ends (r ∷ rs) (split_at (r ∷ rs) (some k) continue)
  split_at-Ends r rs (too_large bytes) continue v w = (throws bytes, refl, (r, inl refl, v.0, v.1))
  split_at-Ends r rs (takes n) continue v w =
      cons_chunk-Ends n (r ∷ rs) _ v.1
        (w (drop n (r ∷ rs)) (let h = length-drop n (r ∷ rs) v.0 in omega (arith, h)))

  split_from-Ends :
      (fuel : ℕ) (routes : List SignedChunkRoute)
      → length routes < fuel
      → Ends routes (split_from fuel c routes)
  unfolding split_from
  split_from-Ends zero routes e = absurd (omega (arith, e))
  split_from-Ends (suc fuel) [] e = (chunks [], refl, (refl, tt))
  split_from-Ends (suc fuel) (r ∷ rs) e =
      let (k, found, v) = next_count_total r rs in
      subst (λ o. Ends (r ∷ rs) (split_at (r ∷ rs) o (split_from fuel c))) (sym found)
        (split_at-Ends r rs k (split_from fuel c) v
          (λ rest h. split_from-Ends fuel rest (omega (arith, h, e))))

  -- The cutting of a list of routes ends. Its batches, one after the other, are the routes in their order; none
  -- is empty, none is sent above the limit of the control, and one above the target is a single route. It throws
  -- only where one of the routes alone is above the limit, with the length of that.
  pub split_routes_for_payload_total :
      (routes : List SignedChunkRoute)
      → (s : Split) × (split_routes_for_payload c routes ≡ some s) × Splits c routes s
  unfolding split_routes_for_payload
  split_routes_for_payload_total routes = split_from-Ends (suc (length routes)) routes (omega arith)
