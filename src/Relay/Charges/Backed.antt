-- ===== src/Relay/Charges/Backed.antt =====
-- What stands behind each charge and each call in a history.
use beam_sdk_public.Common.{◌≡◌, ◌≤◌, length, ◌⊎◌, none, some, List, [], ◌∷◌, Text, All, Has}
use beam_sdk_public.Receipts.Report.{Abi}
use beam_sdk_public.Receipts.Entries.{adds}
use beam_sdk_public.Relay.Customers.{
  Owner, beam, customer, ChargeSubject, transfer_receipt, room_receipt, closing, held, charged,
  released, refused, unavailable,
}
use beam_sdk_public.Relay.Charges.{
  max_entries_per_report, Planned, Effect, reserves, commits, cancels, writes, charge_subject_of,
}

-- The website held the charge.
abbrev pub WasHeld : ChargeSubject → List Effect → Type 0
WasHeld x [] = ⊥
WasHeld x (reserves y held ∷ h) = (x ≡ y) ⊎ WasHeld x h
WasHeld x (reserves y charged ∷ h) = WasHeld x h
WasHeld x (reserves y released ∷ h) = WasHeld x h
WasHeld x (reserves y (refused status reason) ∷ h) = WasHeld x h
WasHeld x (reserves y (unavailable status) ∷ h) = WasHeld x h
WasHeld x (commits y o ∷ h) = WasHeld x h
WasHeld x (cancels k r ∷ h) = WasHeld x h
WasHeld x (writes ps r ∷ h) = WasHeld x h

-- The request was cancelled on the chain.
abbrev pub WasCancelled : Text → List Effect → Type 0
WasCancelled k [] = ⊥
WasCancelled k (cancels j (some hash) ∷ h) = (k ≡ j) ⊎ WasCancelled k h
WasCancelled k (cancels j none ∷ h) = WasCancelled k h
WasCancelled k (reserves y o ∷ h) = WasCancelled k h
WasCancelled k (commits y o ∷ h) = WasCancelled k h
WasCancelled k (writes ps r ∷ h) = WasCancelled k h

module _ (w : Abi) where
  -- A report with an entry for the receipt was mined.
  abbrev pub WasWritten : ChargeSubject → List Effect → Type 0
  WasWritten x [] = ⊥
  WasWritten x (writes ps (some result) ∷ h) =
      ((p : Planned) × Has p ps × (charge_subject_of w p.entry ≡ adds x)) ⊎ WasWritten x h
  WasWritten x (writes ps none ∷ h) = WasWritten x h
  WasWritten x (reserves y o ∷ h) = WasWritten x h
  WasWritten x (commits y o ∷ h) = WasWritten x h
  WasWritten x (cancels k r ∷ h) = WasWritten x h

  abbrev pub IsBackedCommit : ChargeSubject → List Effect → Type 0
  IsBackedCommit (closing k) h = WasCancelled k h
  IsBackedCommit (transfer_receipt id) h = WasWritten (transfer_receipt id) h
  IsBackedCommit (room_receipt k) h = WasWritten (room_receipt k) h

  abbrev pub IsHeldFor : Owner → Planned → List Effect → Type 0
  IsHeldFor beam p h = Unit
  IsHeldFor (customer organization reader via) p h =
      (x : ChargeSubject) → charge_subject_of w p.entry ≡ adds x → WasHeld x h

  -- A customer's entry that records a receipt has its charge held.
  abbrev pub IsBackedEntry : List Effect → Planned → Type 0
  IsBackedEntry h p = IsHeldFor p.owner p h

  -- Each commit is of a receipt that was written or a request that was cancelled before; each request was
  -- cancelled, and each customer's receipt written, with its charge held before; and
  -- no report is longer than the limit.
  abbrev pub IsBacked : List Effect → Type 0
  IsBacked [] = Unit
  IsBacked (reserves x o ∷ h) = IsBacked h
  IsBacked (commits x o ∷ h) = IsBackedCommit x h × IsBacked h
  IsBacked (cancels k r ∷ h) = WasHeld (closing k) h × IsBacked h
  IsBacked (writes ps r ∷ h) =
      ((length ps ≤ max_entries_per_report) × All (IsBackedEntry h) ps) × IsBacked h
