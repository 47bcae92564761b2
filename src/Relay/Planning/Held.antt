-- ===== src/Relay/Planning/Held.antt =====
-- packages/cre/relay/relay.ts: the loop of `runReceipts` that plans, in terms of the books.
use beam_sdk_public.Common.{
  ℕ, ◌≡◌, refl, sym, ◌∙◌, Option, none, some, List, [], ◌∷◌, ◌++◌, if_rule, ltb, Text, All, ◌+◌,
  ◌*◌, inl, inr,
}
use beam_sdk_public.Receipts.Report.{Abi, ReceiptLevels}
use beam_sdk_public.Receipts.Subjects.{
  RoomSubject, JobSubject, Subject, transfer, room, room_request, job, OpenRequest,
  PublicationLookup, unavailable, absent, error, invalid, found, subject_key,
  room_subject_for_lookup,
}
use beam_sdk_public.Receipts.Entries.{
  Observation, ReportEntry, Added, adds, nothing, throws, report_entry_for,
}
use beam_sdk_public.Relay.Customers.{
  Owner, beam, customer, ChargeSubject, ChargeOutcome, held, charged, released, refused,
  unavailable,
}
use beam_sdk_public.Relay.Charges.{charge_subject_of, Planned, Effect, reserves, ChargesIo}
use beam_sdk_public.Relay.Charges.Backed.{WasHeld, IsHeldFor, IsBackedEntry}
use beam_sdk_public.Relay.Closing.Accounting.{Inv, reserves-Inv}
use beam_sdk_public.Relay.Gathering.{Pending}
use beam_sdk_public.Relay.Planning.{
  RelayIo, Planning, Ran, ran, threw, then_run, reader_of, unseen, unseen_by, absent_grace_ms, push,
  after_hold, plan_charged, plan_entry, not_recorded, plan_added, observation_of, plan_subject,
  with_owner, plan_answered, plan_published, plan_job, is_absent, settle_listed, plan_found,
  plan_by_subject, plan_item, plan_all,
}

-- Of a result, and of the calls made before a throw.
abbrev pub Leaves {ℓ} : {A : Type ℓ} → (A → Type 0) → (List Effect → Type 0) → Ran A → Type 0
Leaves P Q (ran a) = P a
Leaves P Q (threw h) = Q h

pub Leaves-then_run {ℓ} :
    {A : Type ℓ} (P R : A → Type 0) (Q : List Effect → Type 0) (r : Ran A) (f : A → Ran A)
    → Leaves P Q r
    → ((a : A) → P a → Leaves R Q (f a))
    → Leaves R Q (then_run r f)
Leaves-then_run P R Q (ran a) f v g = g a v
Leaves-then_run P R Q (threw h) f v g = v

pub All-++ : {A : Type 0} (P : A → Type 0) (xs ys : List A) → All P xs → All P ys → All P (xs ++ ys)
All-++ P [] ys v w = w
All-++ P (x ∷ xs) ys v w = (v.0, All-++ P xs ys v.1 w)

pub All-map :
    {A : Type 0} (P Q : A → Type 0) (xs : List A) → ((a : A) → P a → Q a) → All P xs → All Q xs
All-map P Q [] f v = tt
All-map P Q (x ∷ xs) f v = (f x v.0, All-map P Q xs f v.1)

-- A job is Beam's: a customer's requests to start a transfer are never answered.
abbrev pub IsOfBeam : Owner → Type 0
IsOfBeam beam = Unit
IsOfBeam (customer organization reader via) = ⊥

abbrev pub IsOwned : Owner → Subject → Type 0
IsOwned owner (job j) = IsOfBeam owner
IsOwned owner _ = Unit

abbrev pub IsOwnedPending : Text × Pending → Type 0
IsOwnedPending e = IsOwned e.1.owner e.1.subject

module _ (w : Abi) (uncommitted : List (Text × Text)) where
  abbrev pub IsHolding : List Effect → List Planned → Type 0
  IsHolding h ps = Inv w uncommitted h × All (IsBackedEntry w h) ps

  abbrev pub PlanInv : Planning → Type 0
  PlanInv s = IsHolding s.history s.planned

  abbrev pub IsPlan : Ran Planning → Type 0
  IsPlan = Leaves PlanInv (Inv w uncommitted)

  WasHeld-more :
      (x y : ChargeSubject) (o : ChargeOutcome) (h : List Effect)
      → WasHeld x h
      → WasHeld x (reserves y o ∷ h)
  WasHeld-more x y held h v = inr v
  WasHeld-more x y charged h v = v
  WasHeld-more x y released h v = v
  WasHeld-more x y (refused status reason) h v = v
  WasHeld-more x y (unavailable status) h v = v

  IsHeldFor-more :
      (owner : Owner) (p : Planned) (y : ChargeSubject) (o : ChargeOutcome) (h : List Effect)
      → IsHeldFor w owner p h
      → IsHeldFor w owner p (reserves y o ∷ h)
  IsHeldFor-more beam p y o h v = tt
  IsHeldFor-more (customer organization reader via) p y o h v = λ x e. WasHeld-more x y o h (v x e)

  reserves-IsHolding :
      (y : ChargeSubject) (o : ChargeOutcome) (h : List Effect) (ps : List Planned)
      → IsHolding h ps
      → IsHolding (reserves y o ∷ h) ps
  reserves-IsHolding y o h ps v = (
    reserves-Inv w y o uncommitted h v.0,
    All-map (IsBackedEntry w h) (IsBackedEntry w (reserves y o ∷ h)) ps
        (λ p. IsHeldFor-more p.owner p y o h) v.1,
  )

  push-PlanInv :
      (p : Planned) (s : Planning) → IsBackedEntry w s.history p → PlanInv s → PlanInv (push p s)
  push-PlanInv p s b v = (v.0, All-++ (IsBackedEntry w s.history) s.planned (p ∷ []) v.1 (b, tt))

  after_hold-PlanInv :
      (p : Planned) (o : ChargeOutcome) (s : Planning)
      → (o ≡ held → IsBackedEntry w s.history p)
      → PlanInv s
      → PlanInv (after_hold p o s)
  after_hold-PlanInv p held s b v = push-PlanInv p s (b refl) v
  after_hold-PlanInv p charged s b v = v
  after_hold-PlanInv p released s b v = v
  after_hold-PlanInv p (refused status reason) s b v = v
  after_hold-PlanInv p (unavailable status) s b v = v

  adds_inj : (x y : ChargeSubject) → adds x ≡ adds y → x ≡ y
  adds_inj x y e = cc

  WasHeld-held :
      (x y : ChargeSubject) (o : ChargeOutcome) (h : List Effect)
      → o ≡ held
      → y ≡ x
      → WasHeld y (reserves x o ∷ h)
  WasHeld-held x y held h e same = inl same
  WasHeld-held x y charged h e same = cc
  WasHeld-held x y released h e same = cc
  WasHeld-held x y (refused status reason) h e same = cc
  WasHeld-held x y (unavailable status) h e same = cc

  plan_entry-IsPlan :
      (io : ChargesIo) (e : ReportEntry) (owner : Owner) (key : Text) (s : Planning)
      → PlanInv s
      → IsPlan (plan_entry w io e owner key s)
  plan_entry-IsPlan io e beam key s v = push-PlanInv _ s tt v
  plan_entry-IsPlan io e (customer organization reader via) key s v =
      by_charge (charge_subject_of w e) refl
    where
      p : Planned
      p = record { entry = e; owner = customer organization reader via; key = key }

      by_charge :
          (a : Added ChargeSubject)
          → charge_subject_of w e ≡ a
          → IsPlan (plan_charged io p organization via a s)
      by_charge throws q = v.0
      by_charge nothing q = push-PlanInv p s (λ x c. cc) v
      by_charge (adds x) q =
          let o = io.reserve_charge s.history x organization via in
          after_hold-PlanInv p o (record s { history = reserves x o ∷ s.history })
            (λ h. λ y c. WasHeld-held x y o s.history h (adds_inj y x (sym c ∙ q)))
            (reserves-IsHolding x o s.history s.planned v)

  unseen_by-PlanInv :
      (now : ℕ) (owner : Owner) (r : Option OpenRequest) (key : Text) (s : Planning)
      → PlanInv s
      → PlanInv (unseen_by now owner r key s)
  unseen_by-PlanInv now beam r key s v = v
  unseen_by-PlanInv now (customer organization reader via) none key s v = v
  unseen_by-PlanInv now (customer organization reader via) (some r) key s v =
      if_rule PlanInv (ltb now (r.opened_at * 1000 + absent_grace_ms)) _ _ (λ e. v) (λ e. v)

  unseen-PlanInv : (now : ℕ) (p : Pending) (s : Planning) → PlanInv s → PlanInv (unseen now p s)
  unfolding unseen
  unseen-PlanInv now p s v = unseen_by-PlanInv now p.owner p.request (subject_key p.subject) s v

  settle_listed-PlanInv :
      (o : Option Observation) (key : Text) (s : Planning)
      → PlanInv s
      → PlanInv (settle_listed o key s)
  settle_listed-PlanInv none key s v = v
  settle_listed-PlanInv (some seen) key s v = v

  not_recorded-PlanInv :
      (now : ℕ) (p : Pending) (key : Text) (seen : Observation) (s : Planning)
      → PlanInv s
      → PlanInv (not_recorded now p key seen s)
  not_recorded-PlanInv now p key Observation.absent s v = unseen-PlanInv now p s v
  not_recorded-PlanInv now p key Observation.pending s v = v
  not_recorded-PlanInv now p key Observation.unavailable s v =
      settle_listed-PlanInv p.observation key s v
  not_recorded-PlanInv now p key (Observation.error status) s v =
      settle_listed-PlanInv p.observation key s v
  not_recorded-PlanInv now p key (Observation.invalid reason) s v =
      settle_listed-PlanInv p.observation key s v
  not_recorded-PlanInv now p key (Observation.not_room id) s v =
      settle_listed-PlanInv p.observation key s v
  not_recorded-PlanInv now p key (Observation.saw_transfer seen) s v =
      settle_listed-PlanInv p.observation key s v
  not_recorded-PlanInv now p key (Observation.saw_room seen) s v =
      settle_listed-PlanInv p.observation key s v

  plan_added-IsPlan :
      (io : ChargesIo) (now : ℕ) (p : Pending) (key : Text) (seen : Observation)
      (a : Added ReportEntry) (s : Planning)
      → PlanInv s
      → IsPlan (plan_added w io now p key seen a s)
  plan_added-IsPlan io now p key seen throws s v = v.0
  plan_added-IsPlan io now p key seen nothing s v = not_recorded-PlanInv now p key seen s v
  plan_added-IsPlan io now p key seen (adds e) s v = plan_entry-IsPlan io e p.owner key s v

  module _ (io : RelayIo) (levels : ReceiptLevels) (now : ℕ) where
    plan_subject-IsPlan :
        (p : Pending) (x : Subject) (s : Planning)
        → PlanInv s
        → IsPlan (plan_subject w io levels now p x s)
    unfolding plan_subject
    plan_subject-IsPlan p x s v =
        let seen = observation_of p.observation (io.observe s.history x (reader_of p.owner)) in
        plan_added-IsPlan io.charges now p (subject_key x) seen (report_entry_for w x seen levels) s
          v

    All-with_owner :
        (h : List Effect) (owner : Owner) (key : Text) (es : List ReportEntry)
        → IsOfBeam owner
        → All (IsBackedEntry w h) (with_owner owner key es)
    All-with_owner h beam key [] b = tt
    All-with_owner h beam key (e ∷ es) b = (tt, All-with_owner h beam key es b)
    All-with_owner h (customer organization reader via) key es b = absurd b

    plan_answered-IsPlan :
        (owner : Owner) (key : Text) (a : Added (List ReportEntry)) (s : Planning)
        → IsOfBeam owner
        → PlanInv s
        → IsPlan (plan_answered owner key a s)
    plan_answered-IsPlan owner key throws s b v = v.0
    plan_answered-IsPlan owner key nothing s b v = v
    plan_answered-IsPlan owner key (adds es) s b v = (
      v.0,
      All-++ (IsBackedEntry w s.history) s.planned (with_owner owner key es) v.1
          (All-with_owner s.history owner key es b),
    )

    plan_published-IsPlan :
        (owner : Owner) (j : JobSubject) (input output : PublicationLookup) (s : Planning)
        → IsOfBeam owner
        → PlanInv s
        → IsPlan (plan_published w io levels owner j input output s)
    plan_published-IsPlan owner j (found input) (found output) s b v =
        plan_answered-IsPlan owner (subject_key (job j)) _ s b v
    plan_published-IsPlan owner j (found input) PublicationLookup.unavailable s b v = v
    plan_published-IsPlan owner j (found input) absent s b v = v
    plan_published-IsPlan owner j (found input) (error status) s b v = v
    plan_published-IsPlan owner j (found input) (invalid reason) s b v = v
    plan_published-IsPlan owner j PublicationLookup.unavailable output s b v = v
    plan_published-IsPlan owner j absent output s b v = v
    plan_published-IsPlan owner j (error status) output s b v = v
    plan_published-IsPlan owner j (invalid reason) output s b v = v

    plan_found-IsPlan :
        (p : Pending) (lookup : PublicationLookup) (r : Option RoomSubject) (s : Planning)
        → PlanInv s
        → IsPlan (plan_found w io levels now p lookup r s)
    plan_found-IsPlan p lookup none s v =
        if_rule PlanInv (is_absent lookup) _ _ (λ e. unseen-PlanInv now p s v) (λ e. v)
    plan_found-IsPlan p lookup (some r) s v = plan_subject-IsPlan p (room r) s v

    plan_by_subject-IsPlan :
        (p : Pending) (x : Subject) (s : Planning)
        → IsOwned p.owner x
        → PlanInv s
        → IsPlan (plan_by_subject w io levels now p x s)
    unfolding plan_job
    plan_by_subject-IsPlan p (job j) s b v = plan_published-IsPlan p.owner j _ _ s b v
    plan_by_subject-IsPlan p (room_request r) s b v =
        let lookup = io.find_publication s.history r (reader_of p.owner) in
        plan_found-IsPlan p lookup (room_subject_for_lookup r lookup) s v
    plan_by_subject-IsPlan p (room r) s b v = plan_subject-IsPlan p (room r) s v
    plan_by_subject-IsPlan p (transfer id r) s b v = plan_subject-IsPlan p (transfer id r) s v

    pub plan_all-IsPlan :
        (m : List (Text × Pending)) (s : Planning)
        → All IsOwnedPending m
        → PlanInv s
        → IsPlan (plan_all w io levels now m s)
    unfolding plan_all plan_item
    plan_all-IsPlan [] s b v = v
    plan_all-IsPlan ((key, p) ∷ m) s b v =
        Leaves-then_run PlanInv PlanInv (Inv w uncommitted) (plan_item w io levels now p s)
          (plan_all w io levels now m) (plan_by_subject-IsPlan p p.subject s b.0 v)
          (λ t c. plan_all-IsPlan m t b.1 c)
