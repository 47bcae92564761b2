-- ===== src/Relay/Allowlist.antt =====
-- packages/cre/relay/relay.ts: `syncAllowlist`. A history has each transaction that is sent and each report of one,
-- newest first, with the answer; answers may depend on it.
pub mod Calls
use beam_sdk_public.Common.{
  ℕ, suc, Bool, true, false, ◌&&◌, ◌||◌, not, Option, none, some, List, [], ◌∷◌, if◌then◌else◌,
  Text,
}
use beam_sdk_public.Relay.Customers.{
  RequesterStatus, waiting, approved, revoked, AllowlistStatus, never, allowed, removed, Requester,
  Customer,
}
use beam_sdk_public.Relay.Gathering.{has_status}

pub data AllowlistCall : Type 0 where
  -- The address, and the hash if the transaction is mined.
  sets : Text → Bool → Option Text → AllowlistCall
  -- The requester's id, the hash that is reported, and whether the report was taken.
  reports : Text → Bool → Text → Bool → AllowlistCall

pub record AllowlistIo : Type 0 where
  pub set_requester : List AllowlistCall → Text → Bool → Option Text
  pub report_allowlist : List AllowlistCall → Text → Bool → Text → Bool

abbrev pub is_allowed : AllowlistStatus → Bool
is_allowed allowed = true
is_allowed _ = false

abbrev pub to_allow : Requester → Bool
to_allow r = has_status r.status approved && not (is_allowed r.allowlist)

abbrev pub to_remove : Requester → Bool
to_remove r = has_status r.status revoked && is_allowed r.allowlist

pub record Allowlisting : Type 0 where
  pub calls : List AllowlistCall
  pub changed : ℕ

abbrev pub after_set : AllowlistIo → Requester → Bool → Option Text → Allowlisting → Allowlisting
after_set io r allow none s = record s { calls = sets r.address allow none ∷ s.calls }
after_set io r allow (some hash) s =
    let calls = sets r.address allow (some hash) ∷ s.calls in
    let taken = io.report_allowlist calls r.id allow hash in
    record {
      calls = reports r.id allow hash taken ∷ calls;
      changed = if taken then suc s.changed else s.changed;
    }

unfoldable pub sync_requester : AllowlistIo → Requester → Allowlisting → Allowlisting
sync_requester io r s =
    if not (to_allow r || to_remove r)
    then s
    else after_set io r (to_allow r) (io.set_requester s.calls r.address (to_allow r)) s

unfoldable pub sync_requesters : AllowlistIo → List Requester → Allowlisting → Allowlisting
sync_requesters io [] s = s
sync_requesters io (r ∷ rs) s = sync_requesters io rs (sync_requester io r s)

unfoldable pub sync_customers : AllowlistIo → List Customer → Allowlisting → Allowlisting
sync_customers io [] s = s
sync_customers io (c ∷ cs) s = sync_customers io cs (sync_requesters io c.requesters s)

unfoldable pub sync_allowlist : AllowlistIo → List Customer → List AllowlistCall → Allowlisting
sync_allowlist io cs calls = sync_customers io cs (record { calls = calls; changed = 0 })
