-- ===== src/Relay/Recording/Booked.antt =====
-- packages/cre/relay/relay.ts: the loop of `runReceipts` over the reports, in terms of the books.
use beam_sdk_public.Common.{
  ℕ, zero, suc, ◌≡◌, ◌≢◌, ◌≤◌, arith, refl, Option, none, some, List, [], ◌∷◌, Text, All, Has, take,
  drop, length, inl, inr,
}
use beam_sdk_public.Receipts.Report.{Abi}
use beam_sdk_public.Receipts.TransferId.{bytes16_to_transfer_id}
use beam_sdk_public.Receipts.Entries.{
  ReportEntry, standard_entry, room_entry, closure_entry, job_entry, Added, adds, nothing, throws,
}
use beam_sdk_public.Relay.Customers.{
  Owner, beam, customer, ChargeSubject, transfer_receipt, room_receipt, closing, ChargeOutcome,
}
use beam_sdk_public.Relay.Charges.{
  max_entries_per_report, transfer_subject, charge_subject_of, Planned, Effect, commits, writes,
  ChargesIo,
}
use beam_sdk_public.Relay.Charges.Backed.{WasWritten, IsBackedCommit, IsBackedEntry, IsHeldFor}
use beam_sdk_public.Relay.Closing.Accounting.{Inv, commits-Inv, writes-Inv}
use beam_sdk_public.Relay.Planning.{Ran, ran, threw}
use beam_sdk_public.Relay.Planning.Held.{Leaves, Leaves-then_run, IsHolding, All-map}
use beam_sdk_public.Relay.Recording.{
  Writing, Written, broke, goes_on, commit_subject, commit_owned, commit_batch, after_write,
  after_encode, write_batch, then_write, write_batches,
}

pub All-take : {A : Type 0} (P : A → Type 0) (n : ℕ) (xs : List A) → All P xs → All P (take n xs)
All-take P zero xs v = tt
All-take P (suc n) [] v = tt
All-take P (suc n) (x ∷ xs) v = (v.0, All-take P n xs v.1)

pub length-take : {A : Type 0} (n : ℕ) (xs : List A) → length (take n xs) ≤ n
length-take zero xs = omega arith
length-take (suc n) [] = omega arith
length-take (suc n) (x ∷ xs) = omega (arith, length-take n xs)

pub All-drop : {A : Type 0} (P : A → Type 0) (n : ℕ) (xs : List A) → All P xs → All P (drop n xs)
All-drop P zero xs v = v
All-drop P (suc n) [] v = tt
All-drop P (suc n) (x ∷ xs) v = All-drop P n xs v.1

module _ (w : Abi) where
  transfer_subject_lem : (k : Text) (o : Option Text) → transfer_subject o ≢ adds (closing k)
  transfer_subject_lem k none e = cc
  transfer_subject_lem k (some id) e = cc

  charge_subject_of_lem : (e : ReportEntry) (k : Text) → charge_subject_of w e ≢ adds (closing k)
  unfolding charge_subject_of
  charge_subject_of_lem (standard_entry e) k =
      transfer_subject_lem k (bytes16_to_transfer_id e.transfer_id)
  charge_subject_of_lem (room_entry e) k = λ h. cc
  charge_subject_of_lem (closure_entry e) k = λ h. cc
  charge_subject_of_lem (job_entry e) k = λ h. cc

  WasWritten-IsBackedCommit :
      (e : ReportEntry) (x : ChargeSubject) (h : List Effect)
      → charge_subject_of w e ≡ adds x
      → WasWritten w x h
      → IsBackedCommit w x h
  WasWritten-IsBackedCommit e (closing k) h q v = absurd (charge_subject_of_lem e k q)
  WasWritten-IsBackedCommit e (transfer_receipt id) h q v = v
  WasWritten-IsBackedCommit e (room_receipt k) h q v = v

  -- Each of the entries is in a report of the history.
  abbrev IsWritten : List Effect → Planned → Type 0
  IsWritten h p = (x : ChargeSubject) → charge_subject_of w p.entry ≡ adds x → WasWritten w x h

  All-IsWritten :
      (batch ps : List Planned) (result : Text × List Text) (h : List Effect)
      → ((p : Planned) → Has p ps → Has p batch)
      → All (IsWritten (writes batch (some result) ∷ h)) ps
  All-IsWritten batch [] result h f = tt
  All-IsWritten batch (p ∷ ps) result h f =
      (λ x q. inl (p, f p (inl refl), q), All-IsWritten batch ps result h (λ r m. f r (inr m)))

  module _ (uncommitted : List (Text × Text)) where
    -- The calls so far are booked, and what is planned stays held.
    abbrev Booked : List Planned → Writing → Type 0
    Booked ps s = IsHolding w uncommitted s.history ps

    abbrev Committing : List Planned → List Planned → Writing → Type 0
    Committing batch ps s = Booked ps s × All (IsWritten s.history) batch

    commits-Booked :
        (x : ChargeSubject) (o : ChargeOutcome) (h : List Effect) (ps : List Planned)
        → IsBackedCommit w x h
        → IsHolding w uncommitted h ps
        → IsHolding w uncommitted (commits x o ∷ h) ps
    commits-Booked x o h ps b v = (
      commits-Inv w x o uncommitted h b v.0,
      All-map (IsBackedEntry w h) (IsBackedEntry w (commits x o ∷ h)) ps (λ p. more p.owner p) v.1,
    )
      where
        more :
            (owner : Owner) (p : Planned)
            → IsHeldFor w owner p h
            → IsHeldFor w owner p (commits x o ∷ h)
        more beam p t = tt
        more (customer organization reader via) p t = t

    writes-Booked :
        (batch : List Planned) (r : Option (Text × List Text)) (h : List Effect) (ps : List Planned)
        → (length batch ≤ max_entries_per_report) × All (IsBackedEntry w h) batch
        → IsHolding w uncommitted h ps
        → IsHolding w uncommitted (writes batch r ∷ h) ps
    writes-Booked batch r h ps b v = (
      writes-Inv w batch r uncommitted h b v.0,
      All-map (IsBackedEntry w h) (IsBackedEntry w (writes batch r ∷ h)) ps (λ p. more p.owner p)
          v.1,
    )
      where
        more :
            (owner : Owner) (p : Planned)
            → IsHeldFor w owner p h
            → IsHeldFor w owner p (writes batch r ∷ h)
        more beam p t = tt
        more (customer organization reader via) p t = t

    abbrev pub IsBooked : Writing → Type 0
    IsBooked s = Inv w uncommitted s.history

    module _ (io : ChargesIo) where
      commit_subject-Committing :
          (p : Planned) (batch ps : List Planned) (a : Added ChargeSubject) (s : Writing)
          → charge_subject_of w p.entry ≡ a
          → Committing (p ∷ batch) ps s
          → Leaves (Committing batch ps) (Inv w uncommitted) (commit_subject io p a s)
      commit_subject-Committing p batch ps throws s q v = v.0.0
      commit_subject-Committing p batch ps nothing s q v = (v.0, v.1.1)
      commit_subject-Committing p batch ps (adds x) s q v =
          let o = io.commit_charge s.history x in
          (
            commits-Booked x o s.history ps
                (WasWritten-IsBackedCommit p.entry x s.history q (v.1.0 x q)) v.0,
            All-map (IsWritten s.history) (IsWritten (commits x o ∷ s.history)) batch (λ r t. t)
                v.1.1,
          )

      commit_owned-Committing :
          (p : Planned) (batch ps : List Planned) (owner : Owner) (s : Writing)
          → Committing (p ∷ batch) ps s
          → Leaves (Committing batch ps) (Inv w uncommitted) (commit_owned w io p owner s)
      commit_owned-Committing p batch ps beam s v = (v.0, v.1.1)
      commit_owned-Committing p batch ps (customer organization reader via) s v =
          commit_subject-Committing p batch ps (charge_subject_of w p.entry) s refl v

      commit_batch-Booked :
          (batch ps : List Planned) (s : Writing)
          → Committing batch ps s
          → Leaves (Booked ps) (Inv w uncommitted) (commit_batch w io batch s)
      unfolding commit_batch
      commit_batch-Booked [] ps s v = v.0
      commit_batch-Booked (p ∷ batch) ps s v =
          Leaves-then_run (Committing batch ps) (Booked ps) (Inv w uncommitted)
            (commit_owned w io p p.owner s) (commit_batch w io batch)
            (commit_owned-Committing p batch ps p.owner s v)
            (λ t c. commit_batch-Booked batch ps t c)

      abbrev LeavesWritten : List Planned → Written → Type 0
      LeavesWritten ps (broke s) = Inv w uncommitted s.history
      LeavesWritten ps (goes_on r) = Leaves (Booked ps) (Inv w uncommitted) r

      write_batch-Booked :
          (batch ps : List Planned) (s : Writing)
          → (length batch ≤ max_entries_per_report) × All (IsBackedEntry w s.history) batch
          → Booked ps s
          → LeavesWritten ps (write_batch w io batch s)
      unfolding write_batch
      write_batch-Booked batch ps s b v = encoded _
        where
          mined : (r : Option (Text × List Text)) → LeavesWritten ps (after_write w io batch r s)
          mined none = writes-Inv w batch none uncommitted s.history b v.0
          mined (some result) = commit_batch-Booked batch ps _ (
            writes-Booked batch (some result) s.history ps b v,
            All-IsWritten batch batch result s.history (λ p m. m),
          )

          encoded : (r : Option Text) → LeavesWritten ps (after_encode w io batch r s)
          encoded none = v.0
          encoded (some report) = mined (io.write_report s.history report)

      then_write-IsBooked :
          (ps : List Planned) (r : Written) (f : Writing → Ran Writing)
          → LeavesWritten ps r
          → ((t : Writing) → Booked ps t → Leaves IsBooked (Inv w uncommitted) (f t))
          → Leaves IsBooked (Inv w uncommitted) (then_write r f)
      then_write-IsBooked ps (broke s) f c g = c
      then_write-IsBooked ps (goes_on (threw h)) f c g = c
      then_write-IsBooked ps (goes_on (ran t)) f c g = g t c

      pub write_batches-IsBooked :
          (fuel : ℕ) (ps : List Planned) (s : Writing)
          → Booked ps s
          → Leaves IsBooked (Inv w uncommitted) (write_batches w io fuel ps s)
      unfolding write_batches
      write_batches-IsBooked zero ps s v = v.0
      write_batches-IsBooked (suc fuel) [] s v = v.0
      write_batches-IsBooked (suc fuel) (p ∷ ps) s v =
          let batch = take max_entries_per_report (p ∷ ps) in
          let rest = drop max_entries_per_report (p ∷ ps) in
          then_write-IsBooked rest (write_batch w io batch s) (write_batches w io fuel rest)
            (write_batch-Booked batch rest s
              (
                length-take max_entries_per_report (p ∷ ps),
                All-take (IsBackedEntry w s.history) max_entries_per_report (p ∷ ps) v.1,
              )
              (v.0, All-drop (IsBackedEntry w s.history) max_entries_per_report (p ∷ ps) v.1))
            (λ t c. write_batches-IsBooked fuel rest t c)
