-- ===== src/Events/Iterator/Queueing.antt =====
-- The buffer of the iterator in packages/web-sdk/src/core/events/index.ts is a bounded queue.
use mathlib.Core.List.{append_assoc, append-nil}
use beam_sdk_public.Common.{
  ℕ, ◌≤◌, max, ◌≡◌, refl, sym, ap, ◌∙◌, ◌⊎◌, inl, inr, Bool, true, false, Option, none, some, List,
  [], ◌∷◌, ◌++◌, arith, leb, length, length-append, leb→le, Bool-cases, if_rule, if_rule_at,
}
use beam_sdk_public.Errors.{Thrown}
use beam_sdk_public.Events.Iterator.{
  Iterator, Delivery, value, dropped, ended, failed, start, push, finish, next, Action, pushes,
  finishes, nexts, returns, throws, step, run, end_each, shift_in, push_open, next_from, also,
  ending,
}

-- Nobody waits while a value is buffered, or when the iterator is done; the buffer keeps to its bound.
pub record Inv {A : Type 0} (max_buffer : ℕ) (s : Iterator A) : Type 0 where
  pub idle : (s.buffer ≡ []) ⊎ (s.waiters ≡ [])
  pub bounded : length s.buffer ≤ max 1 max_buffer
  pub closed : s.done ≡ true → s.waiters ≡ []

pub start-Inv : {A : Type 0} (max_buffer : ℕ) → Inv {A = A} max_buffer start
unfolding start
start-Inv max_buffer = record { idle = inl refl; bounded = omega arith; closed = λ h. refl }

module _ {A : Type 0} (max_buffer : ℕ) where
  shift_in-Inv :
      (a : A) (bs : List A) (s : Iterator A)
      → s.buffer ≡ bs
      → s.waiters ≡ []
      → Inv max_buffer s
      → Inv max_buffer (shift_in max_buffer a bs s).0
  unfolding shift_in
  shift_in-Inv a [] s e w v = record { idle = inr w; bounded = omega arith; closed = λ h. w }
  shift_in-Inv a (b ∷ bs) s e w v = elim (Bool-cases (leb max_buffer (length (b ∷ bs)))) [
    | inl full ↦ rw full (record {
      idle = inr w;
      bounded = omega (arith, length-append bs (a ∷ []), ap length e, v.bounded);
      closed = λ h. w;
    })
    | inr room ↦ rw room (record {
      idle = inr w;
      bounded = ground (arith, length-append bs (a ∷ []));
      closed = λ h. w;
    })
  ]

  push_open-Inv :
      (a : A) (ws : List ℕ) (s : Iterator A)
      → s.waiters ≡ ws
      → s.done ≡ false
      → Inv max_buffer s
      → Inv max_buffer (push_open max_buffer a ws s).0
  unfolding push_open
  push_open-Inv a [] s e d v = shift_in-Inv a s.buffer s refl e v
  push_open-Inv a (w ∷ ws) s e d v = record {
    idle = ground arith;
    bounded = v.bounded;
    closed = λ h. cc;
  }

  abbrev Holds : Iterator A × List (Delivery A) → Type 0
  Holds r = Inv max_buffer r.0

  push-Inv : (a : A) (s : Iterator A) → Inv max_buffer s → Inv max_buffer (push max_buffer a s).0
  unfolding push
  push-Inv a s v = if_rule Holds s.done _ _ (λ h. v) (λ h. push_open-Inv a s.waiters s refl h v)

  finish-Inv :
      (e : Option Thrown) (s : Iterator A) → Inv max_buffer s → Inv max_buffer (finish e s).0
  unfolding finish
  finish-Inv e s v =
      if_rule Holds s.done _ _ (λ h. v)
        (λ h. record { idle = inr refl; bounded = v.bounded; closed = λ k. refl })

  next_from-Inv :
      (bs : List A) (s : Iterator A)
      → s.buffer ≡ bs
      → Inv max_buffer s
      → Inv max_buffer (next_from bs s).0
  unfolding next_from
  next_from-Inv (b ∷ bs) s e v = record {
    idle = ground (arith, v.idle);
    bounded = omega (arith, ap length e, v.bounded);
    closed = v.closed;
  }
  next_from-Inv [] s e v =
      if_rule Holds s.done _ _ (λ h. v)
        (λ h. record { idle = inl e; bounded = v.bounded; closed = λ k. cc })

  pub step-Inv :
      (a : Action A) (s : Iterator A) → Inv max_buffer s → Inv max_buffer (step max_buffer a s).0
  unfolding step next
  step-Inv (pushes a) s v = push-Inv a s v
  step-Inv (finishes e) s v = finish-Inv e s v
  step-Inv nexts s v = next_from-Inv s.buffer s refl v
  step-Inv returns s v = finish-Inv none s v
  step-Inv (throws e) s v = finish-Inv (some e) s v

  -- At every time of a run no promise waits while a value is buffered or once the iterator is done, and
  -- the buffer holds at most `maxBuffer` values (one, if that is 0).
  pub run-IsBounded :
      (acts : List (Action A)) (s : Iterator A)
      → Inv max_buffer s
      → Inv max_buffer (run max_buffer acts s).0
  unfolding run
  run-IsBounded [] s v = v
  run-IsBounded (a ∷ acts) s v = run-IsBounded acts (step max_buffer a s).0 (step-Inv a s v)

-- The values that leave the buffer, or pass it by.
abbrev pub items : {A : Type 0} → List (Delivery A) → List A
items [] = []
items (value a ∷ ds) = a ∷ items ds
items (dropped a ∷ ds) = a ∷ items ds
items (ended ∷ ds) = items ds
items (failed e ∷ ds) = items ds

abbrev taken_in : {A : Type 0} → Action A → Bool → List A
taken_in (pushes a) false = a ∷ []
taken_in _ _ = []

-- The values that are pushed in a run before the iterator is done.
unfoldable pub accepted : {A : Type 0} → ℕ → List (Action A) → Iterator A → List A
accepted max_buffer [] s = []
accepted max_buffer (a ∷ acts) s =
    taken_in a s.done ++ accepted max_buffer acts (step max_buffer a s).0

items-append : {A : Type 0} (ds es : List (Delivery A)) → items (ds ++ es) ≡ items ds ++ items es
items-append [] es = refl
items-append (value a ∷ ds) es = ap (◌∷◌ a) (items-append ds es)
items-append (dropped a ∷ ds) es = ap (◌∷◌ a) (items-append ds es)
items-append (ended ∷ ds) es = items-append ds es
items-append (failed e ∷ ds) es = items-append ds es

items-end_each : {A : Type 0} (ws : List ℕ) → items (end_each {A = A} ws) ≡ []
items-end_each [] = refl
items-end_each (w ∷ ws) = items-end_each ws

module _ {A : Type 0} (max_buffer : ℕ) where
  -- What is in the buffer and what comes leaves in that order, or stays.
  abbrev Keeps : Iterator A → List A → Iterator A × List (Delivery A) → Type 0
  Keeps s new r = items r.1 ++ r.0.buffer ≡ s.buffer ++ new

  finish-Keeps : (e : Option Thrown) (s : Iterator A) → Keeps s [] (finish e s)
  unfolding finish
  finish-Keeps e s =
      if_rule (Keeps s []) s.done _ _ (λ h. sym (append-nil s.buffer))
        (λ h. rw (items-end_each {A = A} s.waiters) (sym (append-nil s.buffer)))

  also-Keeps :
      (s : Iterator A) (r : Iterator A × List (Delivery A)) (d : Delivery A)
      → items (d ∷ []) ≡ []
      → Keeps s [] r
      → Keeps s [] (also r d)
  unfolding also
  also-Keeps s (t, ds) d h k = rw (items-append ds (d ∷ []), h, append-nil (items ds)) k

  shift_in-Keeps :
      (a : A) (bs : List A) (s : Iterator A)
      → s.buffer ≡ bs
      → Keeps s (a ∷ []) (shift_in max_buffer a bs s)
  unfolding shift_in
  shift_in-Keeps a [] s e = rw e refl
  shift_in-Keeps a (b ∷ bs) s e =
      if_rule (Keeps s (a ∷ [])) (leb max_buffer (length (b ∷ bs))) _ _ (λ h. rw e refl)
        (λ h. rw e refl)

  push_open-Keeps :
      (a : A) (ws : List ℕ) (s : Iterator A)
      → s.waiters ≡ ws
      → Inv max_buffer s
      → Keeps s (a ∷ []) (push_open max_buffer a ws s)
  unfolding push_open
  push_open-Keeps a [] s e v = shift_in-Keeps a s.buffer s refl
  push_open-Keeps a (w ∷ ws) s e v = elim v.idle [ inl b ↦ rw b refl | inr n ↦ cc ]

  push-Keeps :
      (a : A) (s : Iterator A)
      → Inv max_buffer s
      → Keeps s (taken_in (pushes a) s.done) (push max_buffer a s)
  unfolding push
  push-Keeps a s v =
      if_rule_at (λ d. Keeps s (taken_in (pushes a) d)) s.done _ _ (λ h. sym (append-nil s.buffer))
        (λ h. push_open-Keeps a s.waiters s refl v)

  next_from-Keeps : (bs : List A) (s : Iterator A) → s.buffer ≡ bs → Keeps s [] (next_from bs s)
  unfolding next_from ending
  next_from-Keeps (b ∷ bs) s e = rw e (sym (append-nil (b ∷ bs)))
  next_from-Keeps [] s e =
      if_rule (Keeps s []) s.done _ _ (λ h. ended-Keeps s.failure) (λ h. sym (append-nil s.buffer))
    where
      ended-Keeps : (f : Option Thrown) → Keeps s [] (s, ending f ∷ [])
      ended-Keeps none = sym (append-nil s.buffer)
      ended-Keeps (some x) = sym (append-nil s.buffer)

  step-Keeps :
      (a : Action A) (s : Iterator A)
      → Inv max_buffer s
      → Keeps s (taken_in a s.done) (step max_buffer a s)
  unfolding step next
  step-Keeps (pushes a) s v = push-Keeps a s v
  step-Keeps (finishes e) s v = finish-Keeps e s
  step-Keeps nexts s v = next_from-Keeps s.buffer s refl
  step-Keeps returns s v = also-Keeps s (finish none s) ended refl (finish-Keeps none s)
  step-Keeps (throws e) s v =
      also-Keeps s (finish (some e) s) (failed e) refl (finish-Keeps (some e) s)

  -- The bridge is a queue: the values handed to the consumer and those dropped, in the order in which they
  -- leave, followed by those still buffered, are the ones buffered at the start followed by those pushed
  -- before the iterator was done.
  pub run-queue :
      (acts : List (Action A)) (s : Iterator A)
      → Inv max_buffer s
      → items (run max_buffer acts s).1 ++ (run max_buffer acts s).0.buffer
        ≡ s.buffer ++ accepted max_buffer acts s
  unfolding run accepted
  run-queue [] s v = sym (append-nil s.buffer)
  run-queue (a ∷ acts) s v =
      let (t, ds) = step max_buffer a s in
      let later = run-queue acts t (step-Inv max_buffer a s v) in
      rw (items-append ds (run max_buffer acts t).1, append_assoc)
        (ap (◌++◌ (items ds)) later
          ∙ sym (append_assoc (items ds) t.buffer _)
          ∙ ap (λ l. l ++ accepted max_buffer acts t) (step-Keeps a s v)
          ∙ append_assoc s.buffer _ _)

  abbrev DropsFrom : List A → A → Iterator A × List (Delivery A) → Type 0
  DropsFrom bs b r =
      r.1 ≡ dropped b ∷ [] → (max_buffer ≤ length bs) × ((rest : List A) × (bs ≡ b ∷ rest))

  shift_in-DropsFrom :
      (a b : A) (bs : List A) (s : Iterator A) → DropsFrom bs b (shift_in max_buffer a bs s)
  unfolding shift_in
  shift_in-DropsFrom a b [] s = λ h. cc
  shift_in-DropsFrom a b (x ∷ bs) s =
      if_rule (DropsFrom (x ∷ bs) b) (leb max_buffer (length (x ∷ bs))) _ _
        (λ full h. (leb→le _ _ full, (bs, cc))) (λ room h. cc)

  push_open-DropsFrom :
      (a b : A) (ws : List ℕ) (s : Iterator A) → DropsFrom s.buffer b (push_open max_buffer a ws s)
  unfolding push_open
  push_open-DropsFrom a b [] s = shift_in-DropsFrom a b s.buffer s
  push_open-DropsFrom a b (w ∷ ws) s = λ h. cc

  -- A value is dropped only by a push into a full buffer, and it is the oldest one.
  pub push-dropped :
      (a b : A) (s : Iterator A)
      → (push max_buffer a s).1 ≡ dropped b ∷ []
      → (max_buffer ≤ length s.buffer) × ((rest : List A) × (s.buffer ≡ b ∷ rest))
  unfolding push
  push-dropped a b s =
      if_rule (DropsFrom s.buffer b) s.done _ _ (λ h e. cc)
        (λ h. push_open-DropsFrom a b s.waiters s)
