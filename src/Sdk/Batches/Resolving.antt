-- ===== src/Sdk/Batches/Resolving.antt =====
-- sdks/typescript/src/nats-control.ts: what the references of a compact batch refer to.
use mathlib.Core.List.{append_assoc, append-nil}
use beam_sdk_public.Common.{
  ℕ, zero, suc, ◌≡◌, refl, sym, ap, ◌∙◌, subst, Bool-cases, Option, none, some, some_inj, ◌⊎◌, inl,
  inr, List, [], ◌∷◌, ◌++◌, Text, text_eq, text_eq→eq, length, Has, get_at, set_at, get_at-set_at,
  get_at-set_at_other, arith,
}
use beam_sdk_public.Sdk.{SignedChunkRoute}
use beam_sdk_public.Sdk.Batches.{
  SourceChunk, CompactRoute, Scripting, source_of, compact_route, Compacting, with_ref, compact_one,
  compact_each, compact_signed_routes,
}

abbrev pub chunk_at : ℕ → List SourceChunk → Option SourceChunk
chunk_at n [] = none
chunk_at zero (c ∷ cs) = some c
chunk_at (suc n) (c ∷ cs) = chunk_at n cs

-- A route of the batch stands for a signed route: it refers to its source and has its destination.
pub record Refers (cs : List SourceChunk) (r : SignedChunkRoute) (c : CompactRoute) : Type 0 where
  pub found :
      chunk_at c.source_ref cs ≡ some (record { source_ref = c.source_ref; source = source_of r })
  pub destination : c.destination_id ≡ r.destination_id
  pub url : c.dest_url ≡ r.dest_url
  pub expiry : c.expires_at ≡ r.expires_at
  pub headers : c.dest_headers ≡ r.dest_headers
  pub index : (n : ℕ) → r.delivery_index ≡ some n → c.delivery_index ≡ n

abbrev pub Resolves : List SourceChunk → List SignedChunkRoute → List CompactRoute → Type 0
Resolves cs [] [] = Unit
Resolves cs (r ∷ rs) (x ∷ xs) = Refers cs r x × Resolves cs rs xs
Resolves cs _ _ = ⊥

chunk_at-old :
    (n : ℕ) (cs ds : List SourceChunk) (c : SourceChunk)
    → chunk_at n cs ≡ some c
    → chunk_at n (cs ++ ds) ≡ some c
chunk_at-old n [] ds c e = cc
chunk_at-old zero (x ∷ cs) ds c e = e
chunk_at-old (suc n) (x ∷ cs) ds c e = chunk_at-old n cs ds c e

chunk_at-new :
    (cs : List SourceChunk) (d : SourceChunk) → chunk_at (length cs) (cs ++ d ∷ []) ≡ some d
chunk_at-new [] d = refl
chunk_at-new (x ∷ cs) d = chunk_at-new cs d

chunk_at-cases :
    (n : ℕ) (cs : List SourceChunk) (c d : SourceChunk)
    → chunk_at n (cs ++ d ∷ []) ≡ some c
    → (chunk_at n cs ≡ some c) ⊎ ((n ≡ length cs) × (d ≡ c))
chunk_at-cases zero [] c d e = inr (refl, some_inj e)
chunk_at-cases (suc n) [] c d e = cc
chunk_at-cases zero (x ∷ cs) c d e = inl e
chunk_at-cases (suc n) (x ∷ cs) c d e = elim (chunk_at-cases n cs c d e) [
  | inl old ↦ inl old
  | inr (same, new) ↦ inr (omega (arith, same), new)
]

Resolves-more :
    (cs ds : List SourceChunk) (rs : List SignedChunkRoute) (xs : List CompactRoute)
    → Resolves cs rs xs
    → Resolves (cs ++ ds) rs xs
Resolves-more cs ds [] [] v = tt
Resolves-more cs ds [] (x ∷ xs) v = v
Resolves-more cs ds (r ∷ rs) [] v = v
Resolves-more cs ds (r ∷ rs) (x ∷ xs) v = (
  (record {
    found = chunk_at-old x.source_ref cs ds _ v.0.found;
    destination = v.0.destination;
    url = v.0.url;
    expiry = v.0.expiry;
    headers = v.0.headers;
    index = v.0.index;
  }),
  Resolves-more cs ds rs xs v.1,
)

Resolves-append :
    (cs : List SourceChunk) (rs : List SignedChunkRoute) (r : SignedChunkRoute)
    (xs : List CompactRoute) (x : CompactRoute)
    → Resolves cs rs xs
    → Refers cs r x
    → Resolves cs (rs ++ r ∷ []) (xs ++ x ∷ [])
Resolves-append cs [] r [] x v w = (w, tt)
Resolves-append cs [] r (y ∷ xs) x v w = absurd v
Resolves-append cs (q ∷ rs) r [] x v w = absurd v
Resolves-append cs (q ∷ rs) r (y ∷ xs) x v w = (v.0, Resolves-append cs rs r xs x v.1 w)

get_at-set_at_new :
    (j k : Text) (a n : ℕ) (m : List (Text × ℕ))
    → get_at j m ≡ none
    → get_at k m ≡ some n
    → get_at k (set_at j a m) ≡ some n
get_at-set_at_new j k a n m new e = elim (Bool-cases (text_eq j k)) [
  | inl same ↦ cc (new, e, ap (λ i. get_at i m) (text_eq→eq j k same))
  | inr other ↦ get_at-set_at_other j k a m other ∙ e
]

module _ (w : Scripting) (all : List SignedChunkRoute) where
  -- Routes of the list whose keys are the same have the same source.
  abbrev pub Keyed : Type 0
  Keyed =
      (r q : SignedChunkRoute)
      → Has r all
      → Has q all
      → w.stringify (source_of r) ≡ w.stringify (source_of q)
      → source_of r ≡ source_of q

  -- The map names the chunk of each key, and each chunk is named by its key.
  record Indexed (cs : List SourceChunk) (refs : List (Text × ℕ)) : Type 0 where
    pub names :
        (r : SignedChunkRoute) (n : ℕ)
        → Has r all
        → get_at (w.stringify (source_of r)) refs ≡ some n
        → chunk_at n cs ≡ some (record { source_ref = n; source = source_of r })
    pub once :
        (n : ℕ) (c : SourceChunk)
        → chunk_at n cs ≡ some c
        → get_at (w.stringify c.source) refs ≡ some n

  record Done (rs : List SignedChunkRoute) (s : Compacting) : Type 0 where
    pub indexed : Indexed s.source_chunks s.source_refs
    pub resolves : Resolves s.source_chunks rs s.routes

  Indexed-new :
      (r : SignedChunkRoute) (cs : List SourceChunk) (refs : List (Text × ℕ))
      → Keyed
      → Has r all
      → get_at (w.stringify (source_of r)) refs ≡ none
      → Indexed cs refs
      → Indexed
          (cs ++ record { source_ref = length cs; source = source_of r } ∷ [])
          (set_at (w.stringify (source_of r)) (length cs) refs)
  Indexed-new r cs refs keyed has new v = record {
    names = λ q n h e. elim (Bool-cases (text_eq (key r) (key q))) [
      | inl same ↦ at_key q n h e (text_eq→eq (key r) (key q) same)
      | inr other ↦
          chunk_at-old n cs _ _
            (v.names q n h (sym (get_at-set_at_other (key r) (key q) (length cs) refs other) ∙ e))
    ];
    once = λ n c e. elim (chunk_at-cases n cs c _ e) [
      | inl old ↦
          get_at-set_at_new (key r) (w.stringify c.source) (length cs) n refs new (v.once n c old)
      | inr (same, d) ↦
          subst (λ (x : SourceChunk). get_at (w.stringify x.source) table ≡ some n) d
            (get_at-set_at (key r) (length cs) refs ∙ ap some (sym same))
    ];
  }
    where
      key : SignedChunkRoute → Text
      key q = w.stringify (source_of q)

      table : List (Text × ℕ)
      table = set_at (key r) (length cs) refs

      chunks : List SourceChunk
      chunks = cs ++ record { source_ref = length cs; source = source_of r } ∷ []

      at_key :
          (q : SignedChunkRoute) (n : ℕ)
          → Has q all
          → get_at (key q) table ≡ some n
          → key r ≡ key q
          → chunk_at n chunks ≡ some (record { source_ref = n; source = source_of q })
      at_key q n h e same =
          subst (λ m. chunk_at m chunks ≡ some (record { source_ref = m; source = source_of r }))
            (some_inj
              (sym (get_at-set_at (key r) (length cs) refs) ∙ ap (λ k. get_at k table) same ∙ e))
            (chunk_at-new cs (record { source_ref = length cs; source = source_of r }))
          ∙ ap (λ f. some (record { source_ref = n; source = f })) (keyed r q has h same)

  Refers-compact_route :
      (i n : ℕ) (cs : List SourceChunk) (r : SignedChunkRoute)
      → chunk_at n cs ≡ some (record { source_ref = n; source = source_of r })
      → Refers cs r (compact_route w i n r)
  Refers-compact_route i n cs r e = record {
    found = e;
    destination = refl;
    url = refl;
    expiry = refl;
    headers = refl;
    index = λ m f. rw f refl;
  }

  with_ref-Done :
      (i : ℕ) (r : SignedChunkRoute) (rs : List SignedChunkRoute) (s : Compacting) (o : Option ℕ)
      → Keyed
      → Has r all
      → get_at (w.stringify (source_of r)) s.source_refs ≡ o
      → Done rs s
      → Done (rs ++ r ∷ []) (with_ref w i r (w.stringify (source_of r)) o s)
  with_ref-Done i r rs s (some n) keyed has e v = record {
    indexed = v.indexed;
    resolves =
        Resolves-append s.source_chunks rs r s.routes _ v.resolves
          (Refers-compact_route i n s.source_chunks r (v.indexed.names r n has e));
  }
  with_ref-Done i r rs s none keyed has e v =
      let chunk : SourceChunk = record {
        source_ref = length s.source_chunks;
        source = source_of r;
      } in
      record {
        indexed = Indexed-new r s.source_chunks s.source_refs keyed has e v.indexed;
        resolves =
            Resolves-append (s.source_chunks ++ chunk ∷ []) rs r s.routes _
              (Resolves-more s.source_chunks (chunk ∷ []) rs s.routes v.resolves)
              (Refers-compact_route i (length s.source_chunks) _ r
                (chunk_at-new s.source_chunks chunk));
      }

  compact_each-Done :
      (i : ℕ) (rs done : List SignedChunkRoute) (s : Compacting)
      → Keyed
      → ((r : SignedChunkRoute) → Has r rs → Has r all)
      → Done done s
      → Done (done ++ rs) (compact_each w i rs s)
  unfolding compact_each
  compact_each-Done i [] done s keyed has v = subst (λ d. Done d s) (sym (append-nil done)) v
  compact_each-Done i (r ∷ rs) done s keyed has v =
      subst (λ d. Done d (compact_each w (suc i) rs (compact_one w i r s)))
        (append_assoc done (r ∷ []) rs)
        (compact_each-Done (suc i) rs (done ++ r ∷ []) (compact_one w i r s) keyed
          (λ q h. has q (inr h))
          (with_ref-Done i r done s (get_at (w.stringify (source_of r)) s.source_refs) keyed
            (has r (inl refl)) refl v))

  -- Nothing is lost when the routes of a batch share their source chunks, as long as `JSON.stringify` tells the
  -- sources of the batch apart: the routes stand in their order, each with its destination, its headers and the
  -- delivery index that it had if it had one, and the chunk that it refers to is its own source under that
  -- reference. No source stands in the batch twice.
  pub compact_signed_routes-Resolves :
      Keyed
      → Resolves
          (compact_signed_routes w all).source_chunks
          all
          (compact_signed_routes w all).routes
        × ((m n : ℕ) (c d : SourceChunk)
            → chunk_at m (compact_signed_routes w all).source_chunks ≡ some c
            → chunk_at n (compact_signed_routes w all).source_chunks ≡ some d
            → c.source ≡ d.source
            → m ≡ n)
  unfolding compact_signed_routes get_at
  compact_signed_routes-Resolves keyed =
      let start : Compacting = record { source_chunks = []; source_refs = []; routes = [] } in
      let v =
        compact_each-Done 0 all [] start keyed (λ r h. h)
          (record {
            indexed = record { names = λ r n h e. cc (nothing_in r, e); once = λ n c e. cc };
            resolves = tt;
          }) in
      (
        v.resolves,
        λ m n c d e f same. some_inj (
            sym (v.indexed.once m c e)
            ∙ ap (λ x. get_at (w.stringify x) (compact_each w 0 all start).source_refs) same
            ∙ v.indexed.once n d f),
      )
    where
      nothing_in : (r : SignedChunkRoute) → get_at {A = ℕ} (w.stringify (source_of r)) [] ≡ none
      nothing_in r = refl
