-- ===== src/Relay/Recording/Complete.antt =====
-- packages/cre/relay/relay.ts: the loop of `runReceipts` over the reports, when these are written.
use beam_sdk_public.Common.{
  ℕ, zero, suc, ◌+◌, ◌≤◌, ◌≡◌, ◌≢◌, refl, Option, none, some, List, [], ◌∷◌, Text, All, take, drop,
  length, arith, ◌∙◌, subst,
}
use beam_sdk_public.Receipts.Report.{Abi, encode_report}
use beam_sdk_public.Receipts.Entries.{Added, adds, nothing, throws}
use beam_sdk_public.Relay.Customers.{Owner, beam, customer, ChargeSubject}
use beam_sdk_public.Relay.Charges.{
  max_entries_per_report, charge_subject_of, Planned, Effect, ChargesIo,
}
use beam_sdk_public.Relay.Planning.{Ran, ran, threw}
use beam_sdk_public.Relay.Planning.Held.{Leaves, Leaves-then_run}
use beam_sdk_public.Relay.Recording.{
  Writing, Written, broke, goes_on, standard_of, rooms_of, closures_of, jobs_of, commit_subject,
  commit_owned, commit_batch, after_write, after_encode, write_batch, then_write, write_batches,
}
use beam_sdk_public.Relay.Recording.Booked.{All-take, All-drop}

length-take-drop :
    {A : Type 0} (n : ℕ) (xs : List A) → length (take n xs) + length (drop n xs) ≡ length xs
length-take-drop zero xs = omega arith
length-take-drop (suc n) [] = omega arith
length-take-drop (suc n) (x ∷ xs) = omega (arith, length-take-drop n xs)

module _ (w : Abi) (io : ChargesIo) where
  -- The charge of the entry can be computed.
  abbrev pub IsChargeable : Planned → Type 0
  IsChargeable p = charge_subject_of w p.entry ≢ throws

  abbrev pub Counts : ℕ → Ran Writing → Type 0
  Counts n = Leaves (λ (t : Writing). t.recorded ≡ n) (λ h. ⊥)

  commit_subject-Counts :
      (p : Planned) (a : Added ChargeSubject) (s : Writing)
      → a ≢ throws
      → Counts s.recorded (commit_subject io p a s)
  commit_subject-Counts p throws s f = absurd (f refl)
  commit_subject-Counts p nothing s f = refl
  commit_subject-Counts p (adds x) s f = refl

  commit_owned-Counts :
      (p : Planned) (owner : Owner) (s : Writing)
      → IsChargeable p
      → Counts s.recorded (commit_owned w io p owner s)
  commit_owned-Counts p beam s f = refl
  commit_owned-Counts p (customer organization reader via) s f = commit_subject-Counts p _ s f

  commit_batch-Counts :
      (ps : List Planned) (n : ℕ) (s : Writing)
      → All IsChargeable ps
      → s.recorded ≡ n
      → Counts n (commit_batch w io ps s)
  unfolding commit_batch
  commit_batch-Counts [] n s v e = e
  commit_batch-Counts (p ∷ ps) n s v e =
      Leaves-then_run (λ (t : Writing). t.recorded ≡ s.recorded) (λ (t : Writing). t.recorded ≡ n)
        (λ h. ⊥) (commit_owned w io p p.owner s) (commit_batch w io ps)
        (commit_owned-Counts p p.owner s v.0) (λ t c. commit_batch-Counts ps n t v.1 (c ∙ e))

  -- Each of the reports that the entries make up is within the contract's limit.
  abbrev pub Fits : ℕ → List Planned → Type 0
  Fits zero ps = Unit
  Fits (suc fuel) [] = Unit
  Fits (suc fuel) (p ∷ ps) =
      let batch = take max_entries_per_report (p ∷ ps) in
      (encode_report w (standard_of batch) (rooms_of batch) (closures_of batch) (jobs_of batch)
        ≢ none)
      × Fits fuel (drop max_entries_per_report (p ∷ ps))

  module _ (up : (h : List Effect) (report : Text) → io.write_report h report ≢ none) where
    CountsWritten : ℕ → Written → Type 0
    CountsWritten n (broke s) = ⊥
    CountsWritten n (goes_on r) = Counts n r

    after_write-Counts :
        (batch : List Planned) (r : Option (Text × List Text)) (s : Writing)
        → All IsChargeable batch
        → r ≢ none
        → CountsWritten (s.recorded + length batch) (after_write w io batch r s)
    unfolding CountsWritten
    after_write-Counts batch none s v f = absurd (f refl)
    after_write-Counts batch (some result) s v f = commit_batch-Counts batch _ _ v refl

    after_encode-Counts :
        (batch : List Planned) (r : Option Text) (s : Writing)
        → All IsChargeable batch
        → r ≢ none
        → CountsWritten (s.recorded + length batch) (after_encode w io batch r s)
    unfolding CountsWritten
    after_encode-Counts batch none s v f = absurd (f refl)
    after_encode-Counts batch (some report) s v f =
        after_write-Counts batch _ s v (up s.history report)

    then_write-Counts :
        (m n : ℕ) (r : Written) (f : Writing → Ran Writing)
        → CountsWritten m r
        → ((t : Writing) → t.recorded ≡ m → Counts n (f t))
        → Counts n (then_write r f)
    unfolding CountsWritten
    then_write-Counts m n (broke s) f v g = absurd v
    then_write-Counts m n (goes_on (threw h)) f v g = absurd v
    then_write-Counts m n (goes_on (ran t)) f v g = g t v

    -- If each report that the planned entries make up, 14 by 14, is within the contract's limit, reports are
    -- written, and each entry's charge can be computed, then the loop ends without a throw, on fuel for each
    -- entry, and counts every entry that is planned as recorded.
    pub write_batches-Counts :
        (fuel : ℕ) (ps : List Planned) (s : Writing)
        → All IsChargeable ps
        → Fits fuel ps
        → length ps ≤ fuel
        → Counts (s.recorded + length ps) (write_batches w io fuel ps s)
    unfolding write_batches
    write_batches-Counts zero [] s v fit le = omega arith
    write_batches-Counts zero (p ∷ ps) s v fit le = absurd (omega (arith, le))
    write_batches-Counts (suc fuel) [] s v fit le = omega arith
    write_batches-Counts (suc fuel) (p ∷ ps) s v fit le =
        let batch = take max_entries_per_report (p ∷ ps) in
        let rest = drop max_entries_per_report (p ∷ ps) in
        let parts = length-take-drop max_entries_per_report (p ∷ ps) in
        then_write-Counts (s.recorded + length batch) _ (write_batch w io batch s)
          (write_batches w io fuel rest)
          (unfold write_batch in
            after_encode-Counts batch _ s (All-take IsChargeable max_entries_per_report (p ∷ ps) v)
              fit.0)
          (λ t c.
            subst (λ n. Counts n (write_batches w io fuel rest t)) (omega (arith, parts, c))
              (write_batches-Counts fuel rest t
                (All-drop IsChargeable max_entries_per_report (p ∷ ps) v) fit.1
                (omega (arith, parts, le))))
