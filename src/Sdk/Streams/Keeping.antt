-- ===== src/Sdk/Streams/Keeping.antt =====
-- sdks/typescript/src/client.ts: the runs of a stream of routes, and what its sender keeps.
use mathlib.Core.List.{append_assoc, append-nil}
use beam_sdk_public.Common.{
  ℕ, ◌+◌, ◌-◌, ◌^◌, ◌<◌, ◌≡◌, refl, sym, ap, ◌∙◌, subst, false, ◌||◌, Option, none, some, ◌⊎◌, inr,
  List, [], ◌∷◌, ◌++◌, map, if_rule, ltb, leb, Text, All, length, arith,
}
use beam_sdk_public.Sdk.{SignedChunkRoute}
use beam_sdk_public.Sdk.Splitting.{Control, Split, chunks, throws}
use beam_sdk_public.Sdk.Splitting.Covering.{Fits, Splits, split_routes_for_payload_total}
use beam_sdk_public.Sdk.Streams.{
  SenderError, RouteBatch, RouteStreamSender, new_sender, signed_route_delivery_index, has_index,
  add_at, add_route, numbered, enqueue, flush_unless, flush, send_first, send_next,
}
use beam_sdk_public.Sdk.Streams.Batching.{
  placed, flat, Numbered, IsDistinct, flat-append, flat-numbered, Numbered-append,
  Numbered-numbered, All-append, All-numbered, IsDistinct-append, map-append,
}

-- The delivery indexes of routes: each has one, they differ, and are below the total.
pub record Indexes (total : ℕ) (rs : List SignedChunkRoute) (seen : List ℕ) : Type 0 where
  pub of_routes : map signed_route_delivery_index rs ≡ map some seen
  pub distinct : IsDistinct seen
  pub below : All (λ i. i < total) seen

abbrev pub queued : List (List SignedChunkRoute) → RouteStreamSender → RouteStreamSender
queued cs s = record s {
  batch = [];
  batch_index = s.batch_index + length cs;
  queue = s.queue ++ numbered s.batch_index cs;
}

module _ (c : Control) where
  -- Flushes that do not throw, and sends, whatever becomes of their requests.
  pub data Drains (s : RouteStreamSender) : RouteStreamSender → Type 0 where
    stops : Drains s s
    flushes : (t u : RouteStreamSender) → Drains s t → flush c t ≡ some (inr u) → Drains s u
    sends :
        (t : RouteStreamSender) (outcome : Option Text)
        → Drains s t
        → Drains s (send_next outcome t)

  -- The senders of a stream, with the routes that were added, in their order.
  pub data Streams (total : ℕ) : List SignedChunkRoute → RouteStreamSender → Type 0 where
    begins : Streams total [] (new_sender total)
    adds :
        (rs : List SignedChunkRoute) (r : SignedChunkRoute) (s t : RouteStreamSender)
        → Streams total rs s
        → add_route r s ≡ inr t
        → Streams total (rs ++ r ∷ []) t
    drains :
        (rs : List SignedChunkRoute) (s t : RouteStreamSender)
        → Streams total rs s
        → Drains s t
        → Streams total rs t

  -- Batches with the indexes from 0 that can be sent, and what is buffered after them, are the routes.
  pub record Orders (rs : List SignedChunkRoute) (batch : List SignedChunkRoute) (next : ℕ)
      (bs : List RouteBatch) : Type 0 where
    pub order : flat bs ++ batch ≡ map placed rs
    pub numbers : Numbered 0 bs next
    pub fits : All (λ (b : RouteBatch). Fits c b.routes) bs

  pub record Inv (rs : List SignedChunkRoute) (s : RouteStreamSender) : Type 0 where
    pub indexes : Indexes s.total_routes rs s.seen_delivery_indices
    pub ordered : s.send_error ≡ none → Orders rs s.batch s.batch_index (s.sent ++ s.queue)

  added : SignedChunkRoute → ℕ → RouteStreamSender → RouteStreamSender
  added r i s = record s {
    seen_delivery_indices = s.seen_delivery_indices ++ i ∷ [];
    route_count = s.route_count + 1;
    batch = s.batch ++ record r { delivery_index = some i } ∷ [];
  }

  added-Inv :
      (rs : List SignedChunkRoute) (r : SignedChunkRoute) (i : ℕ) (s : RouteStreamSender)
      → signed_route_delivery_index r ≡ some i
      → i < s.total_routes
      → has_index i s.seen_delivery_indices ≡ false
      → Inv rs s
      → Inv (rs ++ r ∷ []) (added r i s)
  unfolding added
  added-Inv rs r i s e low new v = record {
    indexes = record {
      of_routes =
          map-append signed_route_delivery_index rs r
          ∙ ap (λ t. map signed_route_delivery_index rs ++ t ∷ []) e
          ∙ ap (λ t. t ++ some i ∷ []) v.indexes.of_routes
          ∙ sym (map-append some s.seen_delivery_indices i);
      distinct = IsDistinct-append s.seen_delivery_indices i new v.indexes.distinct;
      below =
          All-append (λ j. j < s.total_routes) s.seen_delivery_indices (i ∷ []) v.indexes.below
            (low, tt);
    };
    ordered = λ h.
        (let o = v.ordered h in
          record {
            order =
                sym (append_assoc (flat (s.sent ++ s.queue)) s.batch _)
                ∙ ap (λ t. t ++ record r { delivery_index = some i } ∷ []) o.order
                ∙ ap (λ (t : Option ℕ). map placed rs ++ record r { delivery_index = t } ∷ [])
                    (sym e)
                ∙ sym (map-append placed rs r);
            numbers = o.numbers;
            fits = o.fits;
          });
  }

  add_at-Inv :
      (rs : List SignedChunkRoute) (r : SignedChunkRoute) (o : Option ℕ) (s t : RouteStreamSender)
      → signed_route_delivery_index r ≡ o
      → Inv rs s
      → add_at r o s ≡ inr t
      → Inv (rs ++ r ∷ []) t
  unfolding added
  add_at-Inv rs r none s t e v f = cc f
  add_at-Inv rs r (some i) s t e v f =
      let P : SenderError ⊎ RouteStreamSender → Type 0 = λ x. x ≡ inr t → Inv (rs ++ r ∷ []) t in
      if_rule P (ltb (2 ^ 53 - 1) i || leb s.total_routes i) _ _ (λ q g. cc g)
        (λ q.
          if_rule P (has_index i s.seen_delivery_indices) _ _ (λ seen g. cc g)
            (λ new g.
              (let same : added r i s ≡ t = cc g in
                subst (Inv (rs ++ r ∷ [])) same (added-Inv rs r i s e (ground (arith, q)) new v))))
        f

  queued-Inv :
      (rs : List SignedChunkRoute) (cs : List (List SignedChunkRoute)) (s : RouteStreamSender)
      → Splits c s.batch (chunks cs)
      → Inv rs s
      → Inv rs (queued cs s)
  queued-Inv rs cs s w v = record {
    indexes = v.indexes;
    ordered = λ h.
        (let o = v.ordered h in
          let new = numbered s.batch_index cs in
          subst (Orders rs [] (s.batch_index + length cs)) (append_assoc s.sent s.queue new)
            (record {
              order =
                  append-nil _
                  ∙ flat-append (s.sent ++ s.queue) new
                  ∙ ap (λ t. flat (s.sent ++ s.queue) ++ t) (flat-numbered s.batch_index cs ∙ w.0)
                  ∙ o.order;
              numbers =
                  Numbered-append 0 s.batch_index (s.batch_index + length cs) (s.sent ++ s.queue)
                    new o.numbers (Numbered-numbered s.batch_index cs);
              fits =
                  All-append (λ (b : RouteBatch). Fits c b.routes) (s.sent ++ s.queue) new o.fits
                    (All-numbered (Fits c) s.batch_index cs w.1);
            }));
  }

  enqueue-Inv :
      (rs : List SignedChunkRoute) (x : Split) (s t : RouteStreamSender)
      → Splits c s.batch x
      → Inv rs s
      → enqueue (some x) s ≡ some (inr t)
      → Inv rs t
  enqueue-Inv rs (throws bytes) s t w v e = cc e
  enqueue-Inv rs (chunks cs) s t w v e =
      let same : queued cs s ≡ t = cc e in subst (Inv rs) same (queued-Inv rs cs s w v)

  flush_unless-Inv :
      (rs : List SignedChunkRoute) (e : Option SenderError) (s t : RouteStreamSender)
      → Inv rs s
      → flush_unless c e s ≡ some (inr t)
      → Inv rs t
  flush_unless-Inv rs (some e) s t v f = cc f
  flush_unless-Inv rs none s t v f =
      let (x, found, w) = split_routes_for_payload_total c s.batch in
      enqueue-Inv rs x s t w v (ap (λ o. enqueue o s) (sym found) ∙ f)

  send_first-Inv :
      (rs : List SignedChunkRoute) (outcome : Option Text) (bs : List RouteBatch)
      (e : Option SenderError) (s : RouteStreamSender)
      → s.queue ≡ bs
      → s.send_error ≡ e
      → Inv rs s
      → Inv rs (send_first outcome bs e s)
  send_first-Inv rs outcome [] e s f g v = v
  send_first-Inv rs outcome (b ∷ bs) (some e) s f g v = record {
    indexes = v.indexes;
    ordered = λ h. cc (g, h);
  }
  send_first-Inv rs (some m) (b ∷ bs) none s f g v = record {
    indexes = v.indexes;
    ordered = λ h. cc h;
  }
  send_first-Inv rs none (b ∷ bs) none s f g v = record {
    indexes = v.indexes;
    ordered = λ h.
        subst (Orders rs s.batch s.batch_index)
          (sym (append_assoc s.sent (b ∷ []) bs ∙ ap (λ q. s.sent ++ q) (sym f))) (v.ordered g);
  }

  pub Drains-Inv :
      (rs : List SignedChunkRoute) (s t : RouteStreamSender) → Inv rs s → Drains s t → Inv rs t
  unfolding flush send_next
  Drains-Inv rs s _ v stops = v
  Drains-Inv rs s _ v (flushes t u run e) =
      flush_unless-Inv rs t.send_error t u (Drains-Inv rs s t v run) e
  Drains-Inv rs s _ v (sends t outcome run) =
      send_first-Inv rs outcome t.queue t.send_error t refl refl (Drains-Inv rs s t v run)

  pub Streams-Inv :
      (total : ℕ) (rs : List SignedChunkRoute) (s : RouteStreamSender)
      → Streams total rs s
      → Inv rs s
  unfolding add_route
  Streams-Inv total _ _ begins = record {
    indexes = record { of_routes = refl; distinct = tt; below = tt };
    ordered = λ h. record { order = refl; numbers = refl; fits = tt };
  }
  Streams-Inv total _ t (adds rs r s _ run e) =
      add_at-Inv rs r (signed_route_delivery_index r) s t refl (Streams-Inv total rs s run) e
  Streams-Inv total rs t (drains _ s _ run more) =
      Drains-Inv rs s t (Streams-Inv total rs s run) more
