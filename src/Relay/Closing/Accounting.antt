-- ===== src/Relay/Closing/Accounting.antt =====
-- packages/cre/relay/relay.ts: the books of `closeUnanswerable`, of charges, cancels and the map of commits.
use beam_sdk_public.Common.{
  ◌≤◌, length, ◌≡◌, refl, sym, subst, ap, ◌⊎◌, inl, inr, true, false, Option, none, some, List, [],
  ◌∷◌, if_rule, Text, text_eq, text_eq→eq, includes, All, set_at, IsIn, IsIn-head, IsIn-tail,
  IsIn-cons, IsIn-set_at_self, IsIn-set_at,
}
use beam_sdk_public.Receipts.Report.{Abi}
use beam_sdk_public.Relay.Customers.{
  requester, ChargeSubject, closing, ChargeOutcome, held, charged, released, refused, unavailable,
}
use beam_sdk_public.Relay.Charges.{
  max_entries_per_report, Planned, Effect, reserves, commits, cancels, writes, ChargesIo,
}
use beam_sdk_public.Relay.Charges.Backed.{
  IsBackedCommit, IsBackedEntry, WasHeld, WasCancelled, IsBacked,
}
use beam_sdk_public.Relay.Closing.{
  Unanswerable, Closes, is_unavailable, is_held, is_charged, retry_commits, after_cancel, close_one,
  close_all, close_unanswerable,
}

-- The website answered a commit for the closed request.
abbrev pub IsConcluded : Text → List Effect → Type 0
IsConcluded k [] = ⊥
IsConcluded k (commits x o ∷ h) = ((x ≡ closing k) × (is_unavailable o ≡ false)) ⊎ IsConcluded k h
IsConcluded k (reserves x o ∷ h) = IsConcluded k h
IsConcluded k (cancels j r ∷ h) = IsConcluded k h
IsConcluded k (writes ps r ∷ h) = IsConcluded k h

module _ (w : Abi) where
  pub record Inv (m : List (Text × Text)) (h : List Effect) : Type 0 where
    pub backed : IsBacked w h
    pub owed : All (λ (e : Text × Text). WasCancelled e.0 h) m
    pub accounted : (k : Text) → WasCancelled k h → IsConcluded k h ⊎ IsIn k m

  -- What a retry of the commits for the map `es` leaves.
  record Retried (es : List (Text × Text)) (h : List Effect) (r : List (Text × Text) × List Effect)
      : Type 0 where
    backed : IsBacked w r.1
    owed : All (λ (e : Text × Text). WasCancelled e.0 r.1) r.0
    same : (k : Text) → WasCancelled k r.1 → WasCancelled k h
    stays : (k : Text) → WasCancelled k h → WasCancelled k r.1
    more : (k : Text) → IsConcluded k h → IsConcluded k r.1
    kept : (k : Text) → IsIn k es → IsConcluded k r.1 ⊎ IsIn k r.0

  All-commits :
      (x : ChargeSubject) (o : ChargeOutcome) (h : List Effect) (m : List (Text × Text))
      → All (λ (e : Text × Text). WasCancelled e.0 h) m
      → All (λ (e : Text × Text). WasCancelled e.0 (commits x o ∷ h)) m
  All-commits x o h [] v = tt
  All-commits x o h (e ∷ m) v = (v.0, All-commits x o h m v.1)

  -- More calls that cancel nothing.
  All-reserves :
      (x : ChargeSubject) (o : ChargeOutcome) (h : List Effect) (m : List (Text × Text))
      → All (λ (e : Text × Text). WasCancelled e.0 h) m
      → All (λ (e : Text × Text). WasCancelled e.0 (reserves x o ∷ h)) m
  All-reserves x o h [] v = tt
  All-reserves x o h (e ∷ m) v = (v.0, All-reserves x o h m v.1)

  pub reserves-Inv :
      (x : ChargeSubject) (o : ChargeOutcome) (m : List (Text × Text)) (h : List Effect)
      → Inv m h
      → Inv m (reserves x o ∷ h)
  reserves-Inv x o m h v = record {
    backed = v.backed;
    owed = All-reserves x o h m v.owed;
    accounted = λ k c. v.accounted k c;
  }

  pub commits-Inv :
      (x : ChargeSubject) (o : ChargeOutcome) (m : List (Text × Text)) (h : List Effect)
      → IsBackedCommit w x h
      → Inv m h
      → Inv m (commits x o ∷ h)
  commits-Inv x o m h b v = record {
    backed = (b, v.backed);
    owed = All-commits x o h m v.owed;
    accounted = λ k c. elim (v.accounted k c) [ inl d ↦ inl (inr d) | inr i ↦ inr i ];
  }

  All-writes :
      (ps : List Planned) (r : Option (Text × List Text)) (h : List Effect) (m : List (Text × Text))
      → All (λ (e : Text × Text). WasCancelled e.0 h) m
      → All (λ (e : Text × Text). WasCancelled e.0 (writes ps r ∷ h)) m
  All-writes ps r h [] v = tt
  All-writes ps r h (e ∷ m) v = (v.0, All-writes ps r h m v.1)

  pub writes-Inv :
      (ps : List Planned) (r : Option (Text × List Text)) (m : List (Text × Text)) (h : List Effect)
      → (length ps ≤ max_entries_per_report) × All (IsBackedEntry w h) ps
      → Inv m h
      → Inv m (writes ps r ∷ h)
  writes-Inv ps r m h b v = record {
    backed = (b, v.backed);
    owed = All-writes ps r h m v.owed;
    accounted = λ k c. v.accounted k c;
  }

  module _ (io : ChargesIo) where
    retry_commits-Retried :
        (es : List (Text × Text)) (h : List Effect)
        → IsBacked w h
        → All (λ (e : Text × Text). WasCancelled e.0 h) es
        → Retried es h (retry_commits io es h)
    unfolding retry_commits
    retry_commits-Retried [] h b v = record {
      backed = b;
      owed = tt;
      same = λ k c. c;
      stays = λ k c. c;
      more = λ k c. c;
      kept = λ k i. inr i;
    }
    retry_commits-Retried ((key, organization) ∷ es) h b v =
        let o = io.commit_charge h (closing key) in
        let g = commits (closing key) o ∷ h in
        let ih = retry_commits-Retried es g (v.0, b) (All-commits (closing key) o h es v.1) in
        let r = retry_commits io es g in
        record {
          backed = ih.backed;
          owed =
              if_rule (All (λ (e : Text × Text). WasCancelled e.0 r.1)) (is_unavailable o) _ _
                (λ u. (ih.stays key v.0, ih.owed)) (λ u. ih.owed);
          same = λ k c. ih.same k c;
          stays = λ k c. ih.stays k c;
          more = λ k c. ih.more k (inr c);
          kept = λ k i.
              if_rule (λ (m : List (Text × Text)). IsConcluded k r.1 ⊎ IsIn k m) (is_unavailable o)
                _ _
                (λ u. elim (IsIn-cons key k organization es i) [
                  | inl e ↦ inr (IsIn-head key k organization r.0 e)
                  | inr i' ↦ elim (ih.kept k i') [
                    | inl c ↦ inl c
                    | inr j ↦ inr (IsIn-tail key k organization r.0 j)
                  ]
                ])
                (λ u. elim (IsIn-cons key k organization es i) [
                  | inl e ↦ inl (ih.more k (inl (ap closing (text_eq→eq key k e), u)))
                  | inr i' ↦ ih.kept k i'
                ]);
        }

    retry_commits-Inv :
        (m : List (Text × Text)) (h : List Effect)
        → Inv m h
        → Inv (retry_commits io m h).0 (retry_commits io m h).1
    retry_commits-Inv m h v =
        let r = retry_commits-Retried m h v.backed v.owed in
        record {
          backed = r.backed;
          owed = r.owed;
          accounted = λ k c. elim (v.accounted k (r.same k c)) [
            | inl d ↦ inl (r.more k d)
            | inr i ↦ r.kept k i
          ];
        }

    abbrev StateInv : Closes → Type 0
    StateInv s = Inv s.uncommitted s.history

    All-cancels_none :
        (j : Text) (h : List Effect) (m : List (Text × Text))
        → All (λ (e : Text × Text). WasCancelled e.0 h) m
        → All (λ (e : Text × Text). WasCancelled e.0 (cancels j none ∷ h)) m
    All-cancels_none j h [] v = tt
    All-cancels_none j h (e ∷ m) v = (v.0, All-cancels_none j h m v.1)

    All-cancelled :
        (j hash : Text) (o : ChargeOutcome) (h : List Effect) (m : List (Text × Text))
        → All (λ (e : Text × Text). WasCancelled e.0 h) m
        → All
            (λ (e : Text × Text).
              WasCancelled e.0 (commits (closing j) o ∷ cancels j (some hash) ∷ h))
            m
    All-cancelled j hash o h [] v = tt
    All-cancelled j hash o h (e ∷ m) v = (inr v.0, All-cancelled j hash o h m v.1)

    All-set_at :
        (P : Text → Type 0) (k a : Text) (m : List (Text × Text))
        → P k
        → All (λ (e : Text × Text). P e.0) m
        → All (λ (e : Text × Text). P e.0) (set_at k a m)
    unfolding set_at
    All-set_at P k a [] p v = (p, tt)
    All-set_at P k a ((j, b) ∷ m) p v =
        if_rule (All (λ (e : Text × Text). P e.0)) (text_eq j k) _ _ (λ e. v)
          (λ e. (v.0, All-set_at P k a m p v.1))

    charged_lem : (o : ChargeOutcome) → is_charged o ≡ true → is_unavailable o ≡ false
    charged_lem held e = cc
    charged_lem charged e = refl
    charged_lem released e = cc
    charged_lem (refused status reason) e = cc
    charged_lem (unavailable status) e = cc

    WasHeld-reserves :
        (x : ChargeSubject) (o : ChargeOutcome) (h : List Effect)
        → is_held o ≡ true
        → WasHeld x (reserves x o ∷ h)
    WasHeld-reserves x held h e = inl refl
    WasHeld-reserves x charged h e = cc
    WasHeld-reserves x released h e = cc
    WasHeld-reserves x (refused status reason) h e = cc
    WasHeld-reserves x (unavailable status) h e = cc

    after_cancel-Inv :
        (u : Unanswerable) (r : Option Text) (s : Closes)
        → WasHeld (closing u.request.key) s.history
        → StateInv s
        → StateInv (after_cancel io u r s)
    after_cancel-Inv u none s p v = record {
      backed = (p, v.backed);
      owed = All-cancels_none u.request.key s.history s.uncommitted v.owed;
      accounted = λ k c. v.accounted k c;
    }
    after_cancel-Inv u (some hash) s p v =
        let key = u.request.key in
        let o = io.commit_charge (cancels key (some hash) ∷ s.history) (closing key) in
        let h = commits (closing key) o ∷ cancels key (some hash) ∷ s.history in
        let m = s.uncommitted in
        let set = set_at key u.organization_id m in
        let owed' = All-cancelled key hash o s.history m v.owed in
        record {
          backed = (inl refl, (p, v.backed));
          owed =
              if_rule (All (λ (e : Text × Text). WasCancelled e.0 h)) (is_charged o) m set
                (λ c. owed')
                (λ c. All-set_at (λ k. WasCancelled k h) key u.organization_id m (inl refl) owed');
          accounted = λ k c.
              if_rule (λ (m' : List (Text × Text)). IsConcluded k h ⊎ IsIn k m') (is_charged o) m
                set
                (λ paid. elim c [
                  | inl e ↦ inl (inl (ap closing (sym e), charged_lem o paid))
                  | inr c' ↦ elim (v.accounted k c') [ inl d ↦ inl (inr d) | inr i ↦ inr i ]
                ])
                (λ due. elim c [
                  | inl e ↦
                      inr
                        (subst (λ x. IsIn x set) (sym e) (IsIn-set_at_self key u.organization_id m))
                  | inr c' ↦ elim (v.accounted k c') [
                    | inl d ↦ inl (inr d)
                    | inr i ↦ inr (IsIn-set_at key k u.organization_id m i)
                  ]
                ]);
        }

    close_one-Inv : (u : Unanswerable) (s : Closes) → StateInv s → StateInv (close_one io u s)
    unfolding close_one
    close_one-Inv u s v =
        let key = u.request.key in
        let o =
          io.reserve_charge s.history (closing key) u.organization_id
            (requester u.request.requester) in
        let h = reserves (closing key) o ∷ s.history in
        let next : Closes = record s { history = h } in
        let w' : StateInv next = reserves-Inv (closing key) o s.uncommitted s.history v in
        if_rule StateInv (is_held o) _ _
          (λ e.
            after_cancel-Inv u (io.cancel_request h key) next
              (WasHeld-reserves (closing key) o s.history e) w')
          (λ e. w')

    close_all-Inv :
        (us : List Unanswerable) (seen : List Text) (s : Closes)
        → StateInv s
        → StateInv (close_all io us seen s)
    unfolding close_all
    close_all-Inv [] seen s v = v
    close_all-Inv (u ∷ us) seen s v =
        if_rule StateInv (includes seen u.request.key) _ _ (λ e. close_all-Inv us seen s v)
          (λ e. close_all-Inv us (u.request.key ∷ seen) (close_one io u s) (close_one-Inv u s v))

    pub close_unanswerable-Inv :
        (us : List Unanswerable) (m : List (Text × Text)) (h : List Effect)
        → Inv m h
        → let s = close_unanswerable io us m h in Inv s.uncommitted s.history
    unfolding close_unanswerable
    close_unanswerable-Inv us m h v = close_all-Inv us [] _ (retry_commits-Inv m h v)
