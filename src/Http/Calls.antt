-- ===== src/Http/Calls.antt =====
-- The calls that a request makes, whatever is answered.
use beam_sdk_public.Common.{
  ℕ, zero, suc, ◌+◌, ◌≡◌, ◌≤◌, refl, ap, ◌∙◌, max, Bool, true, false, ◌&&◌, not, Option, none, some,
  List, [], ◌∷◌, if_rule, ◌==◌, Text, codes, get_at, set_at, get_at-set_at, get_at-set_at_other,
  text_eq, arith,
}
use beam_sdk_public.Retry.Loop.{Outcome, ok, err}
use beam_sdk_public.Retry.Loop.Results.{with_retry_total}
use beam_sdk_public.Http.Messages.{
  HttpCall, mints, rejects, fetches, HttpRequest, Response, Fetched, responded, expired, cancelled,
  failed, key_of, with_key, with_token, base_headers, http_request,
}
use beam_sdk_public.Http.Replies.{Reply, is_ok}
use beam_sdk_public.Http.Requesting.{
  HttpState, Sending, uses_token, after_response, after_fetch, send, with_minted, try_once,
  invalidated, give_back, execute, state_at, retry_env, Requested, requested_by, request,
}

abbrev pub rejections : List HttpCall → ℕ
rejections [] = 0
rejections (rejects ∷ h) = suc (rejections h)
rejections (mints ∷ h) = rejections h
rejections (fetches q ∷ h) = rejections h

abbrev pub sent : List HttpCall → ℕ
sent [] = 0
sent (fetches q ∷ h) = suc (sent h)
sent (mints ∷ h) = sent h
sent (rejects ∷ h) = sent h

-- Every request that is sent carries the key.
abbrev pub Carries : Text → List HttpCall → Type 0
Carries key [] = Unit
Carries key (fetches q ∷ h) =
    (get_at (codes "Idempotency-Key") q.headers ≡ some key) × Carries key h
Carries key (mints ∷ h) = Carries key h
Carries key (rejects ∷ h) = Carries key h

module _ (x : Sending) where
  abbrev pub Keyed : List HttpCall → Type 0
  Keyed h = (key : Text) → key_of x.platform x.options [] ≡ some key → Carries key h

  -- Before a 401 is retried nothing is invalidated; there are so many requests, and one more once it is.
  record Counted (n : ℕ) (s : HttpState) : Type 0 where
    once : rejections s.calls ≤ 1
    unused : s.retried ≡ false → rejections s.calls ≡ 0
    few : sent s.calls ≤ n + rejections s.calls
    keyed : Keyed s.calls
    same_key : s.key ≡ key_of x.platform x.options []

  carries_key :
      (token : Option Text) (key : Text) (o : Option Text)
      → o ≡ some key
      → (m : List (Text × Text))
      → get_at (codes "Idempotency-Key") (with_token token (with_key o m)) ≡ some key
  carries_key none key none e m = cc
  carries_key (some t) key none e m = cc
  carries_key none key (some k) e m = get_at-set_at (codes "Idempotency-Key") k m ∙ e
  carries_key (some t) key (some k) e m =
      get_at-set_at_other (codes "authorization") (codes "Idempotency-Key") _
        (set_at (codes "Idempotency-Key") k m) (unfold text_eq in refl)
      ∙ get_at-set_at (codes "Idempotency-Key") k m
      ∙ e

  abbrev Ends : ℕ → Outcome Reply × HttpState → Type 0
  Ends n p = Counted n p.1

  abbrev Again : Type 0
  Again = HttpState → Outcome Reply × HttpState

  module _ (n : ℕ) (again : Again)
      (goes : (s : HttpState) → s.retried ≡ false → Counted n s → Ends n (again s)) where
    after_response-Ends :
        (q : HttpRequest) (r : Response) (s : HttpState)
        → Counted n s
        → Ends n (after_response x q r s again)
    after_response-Ends q r s v =
        if_rule (Ends n) (is_ok r.status) _ _ (λ e. v)
          (λ e.
            if_rule (Ends n) ((r.status == 401) && (uses_token x && not s.retried)) _ _
              (λ f. goes s (unretried (r.status == 401) (uses_token x) s.retried f) v) (λ f. v))
      where
        unretried : (a b c : Bool) → (a && (b && not c)) ≡ true → c ≡ false
        unretried true true false f = refl
        unretried true true true f = cc
        unretried true false c f = cc
        unretried false b c f = cc

    after_fetch-Ends :
        (q : HttpRequest) (f : Fetched) (s : HttpState)
        → Counted n s
        → Ends n (after_fetch x q f s again)
    after_fetch-Ends q (responded r) s v = after_response-Ends q r s v
    after_fetch-Ends q expired s v = v
    after_fetch-Ends q cancelled s v = v
    after_fetch-Ends q (failed cause timed_out aborted) s v = v

  fetched :
      (n : ℕ) (token : Option Text) (s : HttpState)
      → Counted n s
      → Counted (suc n) (record s {
        calls = fetches (http_request x.platform x.transport x.options s.key token) ∷ s.calls;
      })
  unfolding http_request
  fetched n token s v = record {
    once = v.once;
    unused = v.unused;
    few = (let f = v.few in omega (arith, f));
    keyed = λ key e. (
      carries_key token key _ (v.same_key ∙ e) (base_headers x.transport x.options),
      v.keyed key e,
    );
    same_key = v.same_key;
  }

  module _ (n : ℕ) (again : Again)
      (goes : (s : HttpState)
        → s.retried ≡ false
        → Counted (suc n) s
        → Ends (suc n) (again s)) where
    send-Ends :
        (token : Option Text) (s : HttpState) → Counted n s → Ends (suc n) (send x token s again)
    unfolding send
    send-Ends token s v =
        let q = http_request x.platform x.transport x.options s.key token in
        after_fetch-Ends (suc n) again goes q (x.io.fetch s.calls q) _ (fetched n token s v)

    with_minted-Ends :
        (o : Outcome Text) (s : HttpState) → Counted n s → Ends (suc n) (with_minted x o s again)
    with_minted-Ends (err e) s v = record {
      once = v.once;
      unused = v.unused;
      few = (let f = v.few in omega (arith, f));
      keyed = v.keyed;
      same_key = v.same_key;
    }
    with_minted-Ends (ok token) s v = send-Ends (some token) s v

    try_once-Ends : (s : HttpState) → Counted n s → Ends (suc n) (try_once x s again)
    unfolding try_once
    try_once-Ends s v =
        if_rule (Ends (suc n)) (uses_token x) _ _
          (λ e. with_minted-Ends _ _ (record {
            once = v.once;
            unused = v.unused;
            few = v.few;
            keyed = v.keyed;
            same_key = v.same_key;
          }))
          (λ e. send-Ends none s v)

  invalidated-Counted :
      (n : ℕ) (s : HttpState) → s.retried ≡ false → Counted (suc n) s → Counted n (invalidated s)
  invalidated-Counted n s e v =
      let none_yet = v.unused e in
      let f = v.few in
      record {
        once = omega (arith, none_yet);
        unused = λ t. cc;
        few = omega (arith, none_yet, f);
        keyed = v.keyed;
        same_key = v.same_key;
      }

  give_back-Ends : (n : ℕ) (s : HttpState) → s.retried ≡ false → Counted n s → Ends n (give_back s)
  give_back-Ends n s e v = v

  execute-Ends : (n : ℕ) (s : HttpState) → Counted n s → Ends (suc n) (execute x s)
  unfolding execute
  execute-Ends n s v =
      try_once-Ends n (λ t. try_once x (invalidated t) give_back)
        (λ t e w.
          try_once-Ends n give_back (give_back-Ends (suc n)) (invalidated t)
            (invalidated-Counted n t e w))
        s v

  state_at-Counted : (n : ℕ) → Counted n (state_at x n)
  unfolding state_at
  state_at-Counted zero = record {
    once = omega arith;
    unused = λ e. refl;
    few = omega arith;
    keyed = λ key e. tt;
    same_key = refl;
  }
  state_at-Counted (suc n) = execute-Ends n (state_at x n) (state_at-Counted n)

  -- A request ends, in a result or an error. It invalidates the token at most once, in all of its attempts; it
  -- sends no more requests than the limit of attempts (or one, if that is 0), and one more if it invalidated the
  -- token; and if the operation starts with an idempotency key, its caller's or the one that is made before the
  -- first attempt, each request that is sent carries it, whatever a key made later would be.
  pub request_total :
      (r : Requested) × (request x ≡ some r)
      × (rejections r.calls ≤ 1)
      × (sent r.calls ≤ max x.transport.max_attempts 1 + rejections r.calls)
      × Keyed r.calls
  unfolding request retry_env
  request_total =
      let n = x.transport.max_attempts in
      let (r, e, c, w) =
        with_retry_total (retry_env x) n (suc n) refl (omega arith) (omega arith) in
      let v = state_at-Counted r.calls in
      let f = v.few in (_, ap (requested_by x) e, v.once, omega (arith, c, f), v.keyed)
