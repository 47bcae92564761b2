-- ===== src/Sdk/Plans/Tiling.antt =====
-- sdks/typescript/src/client.ts: the ranges of bytes of the chunks of a plan.
use beam_sdk_public.Common.{
  ℕ, zero, suc, ◌+◌, ◌-◌, ◌*◌, ◌≤◌, ◌<◌, ◌≡◌, refl, ap, ◌∙◌, subst, false, ◌||◌, Option, some, List,
  [], ◌∷◌, ◌++◌, if_rule, ltb, leb, le→leb, min, Text, All, get_at, arith,
}
use beam_sdk_public.Bridge.Attestations.{find}
use beam_sdk_public.Sdk.Plans.{
  pos, CompactTransferPlanSource, CompactTransferPlanDestination, CompactTransferPlanDescriptor,
  ChunkSigningPlanItem, ChunkDestinationSigningTarget, multipart_max_source_chunks,
  multipart_part_number, chunk_size_at, with_key, cons_some, targets_of, item_of, has_id,
  materialize_plan_chunk, Yielded, source_chunks, chunks_of, materialize_plan_chunks,
}

chunk_size_at-pos :
    (size last offset : ℕ)
    → offset < last
    → chunk_size_at size last offset ≡ pos (min size (last - offset))
unfolding chunk_size_at
chunk_size_at-pos size last offset e = rw (le→leb offset last (omega (arith, e))) refl

positive_factor : (a c n : ℕ) → n < a * c → 0 < c
positive_factor a zero n e = absurd (omega (arith, e))
positive_factor a (suc c) n e = omega arith

module _ (d : CompactTransferPlanDescriptor) where
  -- What a plan says of a source: it is the one with its id, its chunks are as many as its size takes and a
  -- multipart upload has parts, and each destination has a key for it.
  pub record IsSound (s : CompactTransferPlanSource) : Type 0 where
    pub found : find (has_id s.source_id) d.sources ≡ some s
    pub few : s.chunk_count ≤ multipart_max_source_chunks
    pub needed : (n : ℕ) → n < s.chunk_count → n * d.chunk_size < s.size
    pub enough : s.size ≤ s.chunk_count * d.chunk_size
    pub keyed :
        All
          (λ (t : CompactTransferPlanDestination).
            (c : ℕ) × (k : Text) × (get_at s.source_id t.final_object_keys ≡ some (c ∷ k)))
          d.destinations

  -- Chunks of a source with consecutive indexes from one, whose bytes are those from an offset to its end,
  -- without a gap or an overlap; each has a byte, and no more than a chunk has.
  abbrev pub Tiles : CompactTransferPlanSource → ℕ → ℕ → List ChunkSigningPlanItem → Type 0
  Tiles s index from [] = from ≡ s.size
  Tiles s index from (i ∷ is) =
      (i.source_id ≡ s.source_id)
      × (i.chunk_index ≡ s.global_chunk_start + index)
      × (i.source_offset ≡ from)
      × ((n : ℕ) × (i.chunk_size ≡ pos n)
          × (0 < n)
          × (n ≤ d.chunk_size)
          × Tiles s (index + 1) (from + n) is)

  -- The chunks of the sources one after the other.
  abbrev pub Covers : List CompactTransferPlanSource → List ChunkSigningPlanItem → Type 0
  Covers [] items = items ≡ []
  Covers (s ∷ ss) items =
      (own : List ChunkSigningPlanItem) × (rest : List ChunkSigningPlanItem) × (items ≡ own ++ rest)
      × Tiles s 0 0 own
      × Covers ss rest

  module _ (s : CompactTransferPlanSource) (index : ℕ) where
    abbrev Yields {ℓ} : {A : Type ℓ} → Option A → Type ℓ
    Yields {A} o = (a : A) × (o ≡ some a)

    with_key-Yields :
        (t : CompactTransferPlanDestination) (c : ℕ) (k : Text)
        → index < multipart_max_source_chunks
        → Yields (with_key d t (s.global_chunk_start + index) index (some (c ∷ k)))
    unfolding multipart_part_number
    with_key-Yields t c k e =
        let few : leb multipart_max_source_chunks index ≡ false = ground (arith, e) in
        rw (multipart_part_number, few) (_, refl)

    cons_some-Yields {ℓ} :
        {A : Type ℓ} (o : Option A) (rest : Option (List A))
        → Yields o
        → Yields rest
        → Yields (cons_some o rest)
    cons_some-Yields o rest (a, e) (r, f) = rw (e, f) (a ∷ r, refl)

    targets_of-Yields :
        (ts : List CompactTransferPlanDestination)
        → index < multipart_max_source_chunks
        → All
            (λ (t : CompactTransferPlanDestination).
              (c : ℕ) × (k : Text) × (get_at s.source_id t.final_object_keys ≡ some (c ∷ k)))
            ts
        → Yields (targets_of d s.source_id (s.global_chunk_start + index) index ts)
    unfolding targets_of
    targets_of-Yields [] e v = ([], refl)
    targets_of-Yields (t ∷ ts) e ((c, k, f), v) =
        cons_some-Yields _ _ (rw f (with_key-Yields t c k e)) (targets_of-Yields ts e v)

    abbrev item : List ChunkDestinationSigningTarget → ChunkSigningPlanItem
    item ts = record {
      chunk_index = s.global_chunk_start + index;
      source_id = s.source_id;
      source_chunk_index = index;
      source_offset = index * d.chunk_size;
      chunk_size = chunk_size_at d.chunk_size s.size (index * d.chunk_size);
      source_url = s.url;
      destinations = ts;
    }

    item_of-item :
        (o : Option (List ChunkDestinationSigningTarget)) (ts : List ChunkDestinationSigningTarget)
        → o ≡ some ts
        → item_of d s s.source_id (s.global_chunk_start + index) o ≡ some (item ts)
    item_of-item o ts e =
        let same : (s.global_chunk_start + index) - s.global_chunk_start ≡ index = omega arith in
        rw (e, same) refl

    materialize_plan_chunk_lem :
        IsSound s
        → index < s.chunk_count
        → (ts : List ChunkDestinationSigningTarget) × (materialize_plan_chunk d s.source_id
              (s.global_chunk_start + index)
            ≡ some (item ts))
    unfolding materialize_plan_chunk
    materialize_plan_chunk_lem v e =
        let same : (s.global_chunk_start + index) - s.global_chunk_start ≡ index = omega arith in
        let (ts, f) = targets_of-Yields d.destinations (omega (arith, e, v.few)) v.keyed in
        (
          ts,
          rw v.found (
              if_rule (λ (o : Option ChunkSigningPlanItem). o ≡ some (item ts))
                (ltb (s.global_chunk_start + index) s.global_chunk_start
                  || leb s.chunk_count ((s.global_chunk_start + index) - s.global_chunk_start))
                _ _ (λ q. absurd (ground (arith, e, q)))
                (λ q. item_of-item _ ts (
                  ap (λ m. targets_of d s.source_id (s.global_chunk_start + index) m d.destinations)
                    same
                  ∙ f))),
        )

  source_chunks-Tiles :
      (s : CompactTransferPlanSource) (n index from : ℕ) (rest : Yielded)
      → IsSound s
      → index + n ≡ s.chunk_count
      → from ≡ min (index * d.chunk_size) s.size
      → (own : List ChunkSigningPlanItem) × (source_chunks d s n index rest
          ≡ record { items = own ++ rest.items; threw = rest.threw })
        × Tiles s index from own
  unfolding source_chunks
  source_chunks-Tiles s zero index from rest v e f =
      let last : s.chunk_count ≡ index = omega (arith, e) in
      let h = subst (λ m. s.size ≤ m * d.chunk_size) last v.enough in
      ([], refl, omega (arith, f, h))
  source_chunks-Tiles s (suc n) index from rest v e f =
      let (ts, g) = materialize_plan_chunk_lem s index v (omega (arith, e)) in
      let low = v.needed index (omega (arith, e)) in
      let some_size =
        positive_factor s.chunk_count d.chunk_size (index * d.chunk_size)
          (omega (arith, low, v.enough)) in
      let size = min d.chunk_size (s.size - index * d.chunk_size) in
      let (own, same, tiles) =
        source_chunks-Tiles s n (index + 1) (from + size) rest v (omega (arith, e))
          (omega (arith, f, low)) in
      (
        item s index ts ∷ own,
        rw (g, same) refl,
        (
          refl,
          refl,
          omega (arith, f, low),
          (
            size,
            chunk_size_at-pos d.chunk_size s.size (index * d.chunk_size) low,
            omega (arith, low, some_size),
            omega arith,
            tiles,
          ),
        ),
      )

  chunks_of-Covers :
      (ss : List CompactTransferPlanSource)
      → All IsSound ss
      → ((chunks_of d ss).threw ≡ false) × Covers ss (chunks_of d ss).items
  unfolding chunks_of
  chunks_of-Covers [] v = (refl, refl)
  chunks_of-Covers (s ∷ ss) v =
      let (own, same, tiles) =
        source_chunks-Tiles s s.chunk_count 0 0 (chunks_of d ss) v.0 (omega arith) (omega arith) in
      let (fine, rest) = chunks_of-Covers ss v.1 in
      (
        ap (λ (y : Yielded). y.threw) same ∙ fine,
        (own, (chunks_of d ss).items, ap (λ (y : Yielded). y.items) same, tiles, rest),
      )

  -- Of a plan whose sources are sound, the chunks of all sources are yielded and nothing is thrown: source by
  -- source, with consecutive indexes, and their ranges are all the bytes of the source, in order, without a gap
  -- or an overlap; each has a byte, and none more than the size of a chunk.
  pub materialize_plan_chunks-Covers :
      All IsSound d.sources
      → ((materialize_plan_chunks d).threw ≡ false)
        × Covers d.sources (materialize_plan_chunks d).items
  unfolding materialize_plan_chunks
  materialize_plan_chunks-Covers = chunks_of-Covers d.sources
