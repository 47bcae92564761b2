-- ===== src/Bridge/Results/Taking.antt =====
-- Which reports a bridge takes, and what of its requests they answer.
use beam_sdk_public.Common.{
  ℕ, ◌≡◌, refl, ap, Bool, true, false, ◌||◌, not, Option, none, some, List, [], ◌∷◌, ◌++◌, if_rule,
  inl, inr, ◌⊎◌, Text, codes, text_eq, text_eq→eq, includes,
}
use beam_sdk_public.Server.Json.{Json}
use beam_sdk_public.Receipts.Report.{DecodedReport, decode_report}
use beam_sdk_public.Receipts.Entries.{Added, adds, nothing, throws}
use beam_sdk_public.Bridge.Attestations.{AttestationAnswer, report_submission, answer_for}
use beam_sdk_public.Bridge.Signatures.{SignedReport, SignerSet, verify_report_signatures}
use beam_sdk_public.Bridge.Requests.{
  AnswerView, Attested, BridgeRequest, answer_view, is_unanswered, has_no, answer,
}
use beam_sdk_public.Bridge.Pumps.{CreAnswers, Bridge}
use beam_sdk_public.Bridge.Pumps.Keeping.{or_head, or_tail}
use beam_sdk_public.Bridge.Pumps.Lagging
use beam_sdk_public.Bridge.Pumps.Lagging.{Lags, stays}
use beam_sdk_public.Bridge.Reports.{ReportHeader, parse_header, report_body}
use beam_sdk_public.Bridge.Results.{
  ResultIo, ResultResponse, accepted, Verified, verified, refused, accepted_by, verified_again,
  verified_by, verify, attested_reply, fitting, Answering, answered_view, viewed, answer_each,
  store, take_verified, take_decoded, take_signed, parsed, handle_result,
}

module _ (io : ResultIo) (now : ℕ) where
  -- A request stays as it is, or it had no reply, the report has an answer for it, and it is given that.
  pub data Answers (reply : BridgeRequest → AnswerView → Attested) (d : DecodedReport)
      : List (Text × BridgeRequest) → List (Text × BridgeRequest) → Type 0 where
    end : Answers reply d [] []
    same :
        (k : Text) (r : BridgeRequest) {m n : List (Text × BridgeRequest)}
        → Answers reply d m n
        → Answers reply d ((k, r) ∷ m) ((k, r) ∷ n)
    answered :
        (k : Text) (r : BridgeRequest) (x : AttestationAnswer) (view : AnswerView)
        {m n : List (Text × BridgeRequest)}
        → is_unanswered r ≡ true
        → answer_for io.abi r.attestation d ≡ adds x
        → answer_view x ≡ adds view
        → Answers reply d m n
        → Answers reply d ((k, r) ∷ m) ((k, answer now (fitting io r (reply r view)) r) ∷ n)

  module _ (reply : BridgeRequest → AnswerView → Attested) (d : DecodedReport) where
    Answers-refl : (m : List (Text × BridgeRequest)) → Answers reply d m m
    Answers-refl [] = end
    Answers-refl ((k, r) ∷ m) = same k r (Answers-refl m)

    by_answer :
        (k : Text) (r : BridgeRequest) (m : List (Text × BridgeRequest)) (rest : Answering)
        (o : Added AttestationAnswer)
        → is_unanswered r ≡ true
        → answer_for io.abi r.attestation d ≡ o
        → Answers reply d m rest.requests
        → Answers reply d
            ((k, r) ∷ m)
            (answered_view io now k r (reply r) (viewed o) m rest).requests
    by_answer k r m rest throws u e v = same k r (Answers-refl m)
    by_answer k r m rest nothing u e v = same k r v
    by_answer k r m rest (adds x) u e v = by_view (answer_view x) refl
      where
        by_view :
            (o : Added AnswerView)
            → answer_view x ≡ o
            → Answers reply d ((k, r) ∷ m) (answered_view io now k r (reply r) o m rest).requests
        by_view throws f = same k r (Answers-refl m)
        by_view nothing f = same k r v
        by_view (adds view) f = answered k r x view u e f v

    pub answer_each-Answers :
        (m : List (Text × BridgeRequest))
        → Answers reply d m (answer_each io now reply d m).requests
    unfolding answer_each
    answer_each-Answers [] = end
    answer_each-Answers ((k, r) ∷ m) =
        let v = answer_each-Answers m in
        if_rule (λ (a : Answering). Answers reply d ((k, r) ∷ m) a.requests) (is_unanswered r) _ _
          (λ u. by_answer k r m _ _ u refl v) (λ u. same k r v)

    pub Answers-Lags : (m n : List (Text × BridgeRequest)) → Answers reply d m n → Lags m n
    Answers-Lags _ _ end = Lagging.end
    Answers-Lags _ _ (same k r v) =
        stays k r r _ _ (refl, refl, refl, refl, (refl, λ x h. h)) (Answers-Lags _ _ v)
    Answers-Lags _ _ (answered k r x view u e f v) =
        stays k r _ _ _ (refl, refl, refl, refl, (refl, λ y h. cc (u, ap has_no h)))
          (Answers-Lags _ _ v)

  -- The bridge does not verify, or the signers verify the report; they are read at the start or again.
  abbrev pub IsVerified : SignedReport → ReportHeader → Option SignerSet → List Text → Type 0
  IsVerified r h none found =
      (io.signers h.don_id false ≡ some none) ⊎ (io.signers h.don_id true ≡ some none)
  IsVerified r h (some set) found =
      (verify_report_signatures io.curve r set ≡ some found)
      × ((io.signers h.don_id false ≡ some (some set))
          ⊎ (io.signers h.don_id true ≡ some (some set)))

  abbrev Verifies : SignedReport → ReportHeader → Verified → Type 0
  Verifies r h (verified signers found) = IsVerified r h signers found
  Verifies r h (refused response) = (n : ℕ) → response ≡ accepted n → ⊥

  verified_again-Verifies :
      (r : SignedReport) (h : ReportHeader) (o : Option (Option SignerSet))
      → io.signers h.don_id true ≡ o
      → Verifies r h (verified_again io.curve r o)
  verified_again-Verifies r h none e = λ n q. cc
  verified_again-Verifies r h (some none) e = inr e
  verified_again-Verifies r h (some (some set)) e =
      by_found (verify_report_signatures io.curve r set) refl
    where
      by_found :
          (o : Option (List Text))
          → verify_report_signatures io.curve r set ≡ o
          → Verifies r h (accepted_by set o)
      by_found none q = λ n f. cc
      by_found (some found) q = (q, inr e)

  verify-Verifies :
      (r : SignedReport) (h : ReportHeader) (o : Option (Option SignerSet))
      → io.signers h.don_id false ≡ o
      → Verifies r h (verify io.curve r o (io.signers h.don_id true))
  verify-Verifies r h none e = λ n q. cc
  verify-Verifies r h (some none) e = inl e
  verify-Verifies r h (some (some set)) e = by_found (verify_report_signatures io.curve r set) refl
    where
      by_found :
          (o : Option (List Text))
          → verify_report_signatures io.curve r set ≡ o
          → Verifies r h (verified_by io.curve r set (io.signers h.don_id true) o)
      by_found none q = verified_again-Verifies r h _ refl
      by_found (some found) q = (q, inl e)

  module _ (a : CreAnswers) (body : Option Json) (seen : List Text) (b : Bridge) where
    -- The report was new when it came in, is of the configured workflow and verified, and the requests are answered from it.
    pub record Takes (c : Bridge) : Type 0 where
      pub report : SignedReport
      pub header : ReportHeader
      pub decoded : DecodedReport
      pub signers : Option SignerSet
      pub found : List Text
      pub is_parsed : parsed body ≡ some report
      pub is_new : includes seen (io.digest_of report.raw_report) ≡ false
      pub has_header : parse_header report.raw_report ≡ some header
      pub is_decoded : decode_report io.abi (report_body report.raw_report) ≡ some decoded
      pub workflow : header.workflow_id ≡ a.workflow_id
      pub owner : codes "0x" ++ header.workflow_owner ≡ a.workflow_owner
      pub is_verified : IsVerified report header signers found
      pub answers :
          Answers
            (attested_reply header signers found (
              report_submission io.bytes_to_hex report.raw_report report.context report.signatures))
            decoded
            b.state.requests
            c.state.requests

    abbrev IsTaken : Bridge × ResultResponse → Type 0
    IsTaken p = (n : ℕ) → p.1 ≡ accepted n → Takes p.0

    module _ (r : SignedReport) (is_parsed : parsed body ≡ some r)
        (is_new : includes seen (io.digest_of r.raw_report) ≡ false) where
      module _ (h : ReportHeader) (d : DecodedReport)
          (has_header : parse_header r.raw_report ≡ some h)
          (is_decoded : decode_report io.abi (report_body r.raw_report) ≡ some d)
          (workflow : text_eq h.workflow_id a.workflow_id ≡ true)
          (owner : text_eq (codes "0x" ++ h.workflow_owner) a.workflow_owner ≡ true) where
        store-IsTaken :
            (signers : Option SignerSet) (found : List Text)
            → IsVerified r h signers found
            → let reply =
                attested_reply h signers found
                  (report_submission io.bytes_to_hex r.raw_report r.context r.signatures) in
              IsTaken
                (store (io.digest_of r.raw_report) (answer_each io now reply d b.state.requests) b)
        store-IsTaken signers found v =
            let reply =
              attested_reply h signers found
                (report_submission io.bytes_to_hex r.raw_report r.context r.signatures) in
            let each = answer_each io now reply d b.state.requests in
            if_rule IsTaken each.threw _ _ (λ t n e. cc)
              (λ t n e. record {
                report = r;
                header = h;
                decoded = d;
                signers = signers;
                found = found;
                is_parsed = is_parsed;
                is_new = is_new;
                has_header = has_header;
                is_decoded = is_decoded;
                workflow = text_eq→eq _ _ workflow;
                owner = text_eq→eq _ _ owner;
                is_verified = v;
                answers = answer_each-Answers reply d b.state.requests;
              })

        take_verified-IsTaken :
            (v : Verified) → Verifies r h v → IsTaken (take_verified io now r h d v b)
        take_verified-IsTaken (verified signers found) p = store-IsTaken signers found p
        take_verified-IsTaken (refused response) p = λ n e. absurd (p n e)

      not-false : (x : Bool) → not x ≡ false → x ≡ true
      not-false true e = refl
      not-false false e = cc

      take_decoded-IsTaken :
          (o : Option ReportHeader) (q : Option DecodedReport)
          → parse_header r.raw_report ≡ o
          → decode_report io.abi (report_body r.raw_report) ≡ q
          → IsTaken (take_decoded io a now r o q b)
      take_decoded-IsTaken none none e f = λ n h. cc
      take_decoded-IsTaken none (some d) e f = λ n h. cc
      take_decoded-IsTaken (some h) none e f = λ n g. cc
      take_decoded-IsTaken (some h) (some d) e f =
          let wrong = not (text_eq h.workflow_id a.workflow_id) in
          let other = not (text_eq (codes "0x" ++ h.workflow_owner) a.workflow_owner) in
          if_rule IsTaken (wrong || other) _ _ (λ t n g. cc)
            (λ t.
              take_verified-IsTaken h d e f (not-false _ (or_head wrong other t))
                (not-false _ (or_tail wrong other t)) _ (verify-Verifies r h _ refl))

    take_signed-IsTaken :
        (o : Option SignedReport) → parsed body ≡ o → IsTaken (take_signed io a now o seen b)
    take_signed-IsTaken none e = λ n h. cc
    take_signed-IsTaken (some r) e =
        if_rule IsTaken (includes seen (io.digest_of r.raw_report)) _ _ (λ t n h. cc)
          (λ t. take_decoded-IsTaken r e t _ _ refl refl)

    -- A report that a bridge accepts was not among the reports that the bridge had when it came in, is of the
    -- workflow that is configured, and, where the bridge verifies, is signed as `verify_report_signatures` asks by
    -- signers that the bridge read for the report's DON; and each request that the bridge has when it has verified
    -- the report, whatever came in between, is left as it is, or it had no reply then and is given the answer that
    -- the report has for what it asks, with that report or, where this does not fit, with the reason.
    pub handle_result-Takes :
        (n : ℕ)
        → (handle_result io a now body seen b).1 ≡ accepted n
        → Takes (handle_result io a now body seen b).0
    unfolding handle_result
    handle_result-Takes = take_signed-IsTaken _ refl
