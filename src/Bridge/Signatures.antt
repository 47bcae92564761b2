-- ===== src/Bridge/Signatures.antt =====
-- packages/cre/bridge/report.ts: the signatures over a report. keccak256 and the recovery of a signer's address are
-- parameters; bytes are numbers.
pub mod Quorum
use beam_sdk_public.Common.{
  ℕ, zero, suc, ◌+◌, ◌-◌, Bool, true, false, ◌||◌, not, Option, none, some, List, [], ◌∷◌, ◌++◌,
  if◌then◌else◌, ltb, leb, ◌==◌, Text, includes, length,
}
use beam_sdk_public.Receipts.TransferId.{to_lower}

pub record SignedReport : Type 0 where
  pub raw_report : List ℕ
  pub context : List ℕ
  pub signatures : List (List ℕ)

pub record Curve : Type 0 where
  pub keccak256 : List ℕ → List ℕ
  -- The address, or nothing where the recovery throws.
  pub recover_address : List ℕ → List ℕ → Option Text

unfoldable pub report_digest : Curve → List ℕ → List ℕ → List ℕ
report_digest c raw context = c.keccak256 (c.keccak256 raw ++ context)

pub record SignerSet : Type 0 where
  pub f : ℕ
  pub signers : List Text

-- The byte at an index, if it is at least 27, is less 27.
unfoldable pub normalized_at : ℕ → List ℕ → List ℕ
normalized_at n [] = []
normalized_at zero (b ∷ bs) = (if leb 27 b then b - 27 else b) ∷ bs
normalized_at (suc n) (b ∷ bs) = b ∷ normalized_at n bs

-- The address in lower case, for a signature of the right length.
abbrev pub lower_address : Option Text → Option Text
lower_address none = none
lower_address (some a) = some (to_lower a)

unfoldable pub signer_of : Curve → List ℕ → List ℕ → Option Text
signer_of c digest signature =
    if not (length signature == 65)
    then none
    else lower_address (c.recover_address digest (normalized_at 64 signature))

-- `Set.prototype.add`.
abbrev pub add_signer : Text → List Text → List Text
add_signer a accepted = if includes accepted a then accepted else accepted ++ a ∷ []

abbrev pub accept : List Text → Option Text → List Text → List Text
accept signers none accepted = accepted
accept signers (some a) accepted = if includes signers a then add_signer a accepted else accepted

-- The loop over the signatures.
unfoldable pub accept_all : Curve → ℕ → List ℕ → List Text → List (List ℕ) → List Text → List Text
accept_all c required digest signers [] accepted = accepted
accept_all c required digest signers (s ∷ ss) accepted =
    let rest =
      accept_all c required digest signers ss (accept signers (signer_of c digest s) accepted) in
    if length accepted == required then accepted else rest

-- `none` where it throws.
unfoldable pub verify_report_signatures : Curve → SignedReport → SignerSet → Option (List Text)
verify_report_signatures c r set =
    let required = set.f + 1 in
    let accepted =
      accept_all c required (report_digest c r.raw_report r.context) set.signers r.signatures [] in
    if ltb (length accepted) required then none else some accepted
