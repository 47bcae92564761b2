-- ===== src/Sdk/Streams/Delivering.antt =====
-- sdks/typescript/src/client.ts: what a stream of routes has delivered when it completes.
use mathlib.Core.List.{append-nil}
use beam_sdk_public.Common.{
  ℕ, ◌≡◌, refl, sym, ap, ◌∙◌, subst, ◌||◌, not, Option, none, some, inr, List, [], ◌∷◌, ◌++◌,
  if_rule, ◌==◌, Text, length, arith,
}
use beam_sdk_public.Sdk.{SignedChunkRoute}
use beam_sdk_public.Sdk.Splitting.{Control, Split, chunks, throws}
use beam_sdk_public.Sdk.Streams.{
  SenderError, RouteBatch, RouteStreamSender, enqueue, flush_unless, flush, send_first, send_next,
  check_complete, Completion, completion_unless, completion,
}
use beam_sdk_public.Sdk.Streams.Keeping.{
  Drains, stops, flushes, sends, Streams, Indexes, Orders, queued, Drains-Inv, Streams-Inv,
}

module _ (c : Control) where
  -- What a stream has delivered: the batches are the routes in the order in which they were added, each as it was
  -- but for its index, under the numbers from 0, and each could be sent; the indexes are those below the total.
  pub record Delivers (rs : List SignedChunkRoute) (t : RouteStreamSender) (x : Completion)
      : Type 0 where
    pub orders : Orders c rs [] x.expected_batches t.sent
    pub indexes : Indexes x.expected_routes rs t.seen_delivery_indices
    pub all : length t.seen_delivery_indices ≡ x.expected_routes

  check_complete-all :
      (s : RouteStreamSender)
      → check_complete s ≡ none
      → length s.seen_delivery_indices ≡ s.total_routes
  unfolding check_complete
  check_complete-all s e =
      if_rule
        (λ (o : Option SenderError). o ≡ none → length s.seen_delivery_indices ≡ s.total_routes)
        (not (s.route_count == s.total_routes)
          || not (length s.seen_delivery_indices == s.total_routes))
        _ _ (λ q f. cc f) (λ q f. ground (arith, q)) e

  abbrev IsSame : RouteStreamSender → RouteStreamSender → Type 0
  IsSame s t =
      (t.seen_delivery_indices ≡ s.seen_delivery_indices) × (t.total_routes ≡ s.total_routes)

  enqueue-IsSame :
      (o : Option Split) (s t : RouteStreamSender) → enqueue o s ≡ some (inr t) → IsSame s t
  enqueue-IsSame none s t e = cc e
  enqueue-IsSame (some (throws bytes)) s t e = cc e
  enqueue-IsSame (some (chunks cs)) s t e =
      let same : t ≡ queued cs s = cc e in
      (
        ap (λ (u : RouteStreamSender). u.seen_delivery_indices) same,
        ap (λ (u : RouteStreamSender). u.total_routes) same,
      )

  flush_unless-IsSame :
      (e : Option SenderError) (s t : RouteStreamSender)
      → flush_unless c e s ≡ some (inr t)
      → IsSame s t
  flush_unless-IsSame (some e) s t f = cc f
  flush_unless-IsSame none s t f = enqueue-IsSame _ s t f

  send_first-IsSame :
      (outcome : Option Text) (bs : List RouteBatch) (e : Option SenderError)
      (s : RouteStreamSender)
      → IsSame s (send_first outcome bs e s)
  send_first-IsSame outcome [] e s = (refl, refl)
  send_first-IsSame outcome (b ∷ bs) (some e) s = (refl, refl)
  send_first-IsSame none (b ∷ bs) none s = (refl, refl)
  send_first-IsSame (some m) (b ∷ bs) none s = (refl, refl)

  Drains-IsSame : (s t : RouteStreamSender) → Drains c s t → IsSame s t
  unfolding flush send_next
  Drains-IsSame s _ stops = (refl, refl)
  Drains-IsSame s _ (flushes t u run e) =
      let (a, b) = flush_unless-IsSame t.send_error t u e in
      let (i, j) = Drains-IsSame s t run in (a ∙ i, b ∙ j)
  Drains-IsSame s _ (sends t outcome run) =
      let (a, b) = send_first-IsSame outcome t.queue t.send_error t in
      let (i, j) = Drains-IsSame s t run in (a ∙ i, b ∙ j)

  completed :
      (e : Option SenderError) (t : RouteStreamSender) (x : Completion)
      → completion_unless e t ≡ inr x
      → (e ≡ none) × (t.batch_index ≡ x.expected_batches) × (t.total_routes ≡ x.expected_routes)
  completed (some e) t x f = cc f
  completed none t x f = (
    refl,
    (let same : record { expected_batches = t.batch_index; expected_routes = t.total_routes } ≡ x =
          cc f in
        ap (λ (y : Completion). y.expected_batches) same),
    (let same : record { expected_batches = t.batch_index; expected_routes = t.total_routes } ≡ x =
          cc f in
        ap (λ (y : Completion). y.expected_routes) same),
  )

  -- However the additions, the flushes and the sends of a stream interleave: if the check of `complete` passes,
  -- and after it the buffer and the queue are emptied and the stream completes, then the batches that were
  -- accepted are all the routes that were added, in that order, under the numbers from 0 up to the number of
  -- batches that it announces; each could be sent; and the delivery indexes are all different, below the number
  -- of routes that it announces, and as many.
  pub completion-Delivers :
      (total : ℕ) (rs : List SignedChunkRoute) (s t : RouteStreamSender) (x : Completion)
      → Streams c total rs s
      → check_complete s ≡ none
      → Drains c s t
      → t.batch ≡ []
      → t.queue ≡ []
      → completion t ≡ inr x
      → Delivers rs t x
  unfolding completion
  completion-Delivers total rs s t x run checked more flushed sent e =
      let v = Drains-Inv c rs s t (Streams-Inv c total rs s run) more in
      let (fine, batches, routes) = completed t.send_error t x e in
      let (seen, same_total) = Drains-IsSame s t more in
      record {
        orders =
            subst (λ q. Orders c rs [] x.expected_batches q)
              (ap (λ q. t.sent ++ q) sent ∙ append-nil t.sent)
              (subst (λ n. Orders c rs [] n (t.sent ++ t.queue)) batches
                (subst (λ b. Orders c rs b t.batch_index (t.sent ++ t.queue)) flushed
                  (v.ordered fine)));
        indexes = subst (λ n. Indexes n rs t.seen_delivery_indices) routes v.indexes;
        all = ap (λ is. length is) seen ∙ check_complete-all s checked ∙ sym same_total ∙ routes;
      }
