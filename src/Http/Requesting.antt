-- ===== src/Http/Requesting.antt =====
-- packages/web-sdk/src/core/transport/http.ts: `HttpTransport.request`. Fetch and the token provider answer as a
-- function of the calls made before, newest first.
use beam_sdk_public.Common.{
  ℕ, zero, suc, Bool, true, false, ◌&&◌, not, Option, none, some, List, [], ◌∷◌, ◌++◌,
  if◌then◌else◌, ◌==◌, Text, codes, decimal,
}
use beam_sdk_public.Errors.{beam, timeout_error, abort_error}
use beam_sdk_public.Retry.Backoff.{finite, defaults}
use beam_sdk_public.Retry.Loop.{Outcome, ok, err, RetryEnv, Report, with_retry}
use beam_sdk_public.Http.Messages.{
  Fetched, HttpCall, HttpIo, HttpPlatform, HttpRequest, HttpTransport, Method, RequestOptions,
  Response, cancelled, delete_method, expired, failed, fetches, get_method, http_request, key_of,
  mints, or_else, patch_method, post_method, put_method, rejects, responded,
}
use beam_sdk_public.Http.Replies.{Reply, fetch_error, is_ok, reply_of, to_beam_error}

-- The key of the operation, whether it was sent again after a 401, and the calls.
pub record HttpState : Type 0 where
  pub key : Option Text
  pub retried : Bool
  pub calls : List HttpCall

abbrev method_name : Method → Text
method_name get_method = codes "GET"
method_name post_method = codes "POST"
method_name put_method = codes "PUT"
method_name delete_method = codes "DELETE"
method_name patch_method = codes "PATCH"

abbrev pub at_url : HttpRequest → Text
at_url q = method_name q.method ++ codes " " ++ q.url

-- A request with what `execute` reads of its options.
pub record Sending : Type 0 where
  pub platform : HttpPlatform
  pub io : HttpIo
  pub transport : HttpTransport
  pub options : RequestOptions

abbrev pub deadline_ms : Sending → ℕ
deadline_ms x = or_else x.options.timeout_ms x.transport.timeout_ms

abbrev pub uses_token : Sending → Bool
uses_token x = or_else x.options.authenticated true && x.io.has_provider

-- `again` is what a 401 leads to when it may be retried.
abbrev pub after_response :
    Sending
    → HttpRequest
    → Response
    → HttpState
    → (HttpState → Outcome Reply × HttpState)
    → Outcome Reply × HttpState
after_response x q r s again =
    if is_ok r.status
    then (reply_of x.platform (at_url q) x.options.raw r, s)
    else if (r.status == 401) && (uses_token x && not s.retried)
    then again s
    else (err (beam (to_beam_error x.platform r q.url)), s)

abbrev pub after_fetch :
    Sending
    → HttpRequest
    → Fetched
    → HttpState
    → (HttpState → Outcome Reply × HttpState)
    → Outcome Reply × HttpState
after_fetch x q (responded r) s again = after_response x q r s again
after_fetch x q expired s again = (
  err (
      beam
        (timeout_error (codes "The request exceeded " ++ decimal (deadline_ms x) ++ codes "ms."))),
  s,
)
after_fetch x q cancelled s again = (err (beam abort_error), s)
after_fetch x q (failed cause timed_out aborted) s again =
    (err (fetch_error (at_url q) (decimal (deadline_ms x)) cause timed_out aborted), s)

unfoldable pub send :
    Sending
    → Option Text
    → HttpState
    → (HttpState → Outcome Reply × HttpState)
    → Outcome Reply × HttpState
send x token s again =
    let q = http_request x.platform x.transport x.options s.key token in
    after_fetch x q (x.io.fetch s.calls q) (record s { calls = fetches q ∷ s.calls }) again

abbrev pub with_minted :
    Sending
    → Outcome Text
    → HttpState
    → (HttpState → Outcome Reply × HttpState)
    → Outcome Reply × HttpState
with_minted x (err e) s again = (err e, s)
with_minted x (ok token) s again = send x (some token) s again

unfoldable pub try_once :
    Sending → HttpState → (HttpState → Outcome Reply × HttpState) → Outcome Reply × HttpState
try_once x s again =
    if uses_token x
    then with_minted x (x.io.get_token s.calls) (record s { calls = mints ∷ s.calls }) again
    else send x none s again

-- The token is invalidated before the operation is sent again, for which no 401 is retried.
abbrev pub invalidated : HttpState → HttpState
invalidated s = record s { retried = true; calls = rejects ∷ s.calls }

abbrev pub give_back : HttpState → Outcome Reply × HttpState
give_back s = (err (beam abort_error), s)

-- `execute`, which calls itself at most once: the flag is set, so that `give_back` is not reached.
unfoldable pub execute : Sending → HttpState → Outcome Reply × HttpState
execute x s = try_once x s (λ t. try_once x (invalidated t) give_back)

-- The key is made once, before the first attempt.
abbrev pub fresh : Sending → HttpState
fresh x = record { key = key_of x.platform x.options []; retried = false; calls = [] }

-- The state in which the attempt with this number finds the operation.
unfoldable pub state_at : Sending → ℕ → HttpState
state_at x zero = fresh x
state_at x (suc n) = (execute x (state_at x n)).1

unfoldable pub retry_env : Sending → RetryEnv Reply
retry_env x = record {
  backoff = (record defaults { max_attempts = finite x.transport.max_attempts });
  custom_should_retry = none;
  operation = λ n. (execute x (state_at x n)).0;
  sample = x.io.sample;
  aborted_before = x.io.aborted_before;
  aborted_waiting = x.io.aborted_waiting;
}

pub record Requested : Type 0 where
  pub result : Outcome Reply
  pub calls : List HttpCall

abbrev pub requested_by : Sending → Option (Report Reply) → Option Requested
requested_by x none = none
requested_by x (some r) = some (record { result = r.result; calls = (state_at x r.calls).calls })

-- One unit of fuel for each attempt, and one for none.
unfoldable pub request : Sending → Option Requested
request x = requested_by x (with_retry (suc x.transport.max_attempts) (retry_env x))
