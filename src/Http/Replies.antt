-- ===== src/Http/Replies.antt =====
-- packages/web-sdk/src/core/transport/http.ts: what a response or a failed fetch becomes.
use beam_sdk_public.Common.{
  text_eq, ℕ, Bool, true, false, ◌&&◌, ◌||◌, Option, none, some, [], ◌∷◌, ◌++◌, if◌then◌else◌, ltb,
  leb, ◌==◌, Text, codes, decimal, get_at, take,
}
use beam_sdk_public.Errors.{
  auth_expired, protocol, ErrorClass, timeout_class, abort_class, BeamError, Thrown, beam, other,
  with_code, auth_error, api_error, network_error, timeout_error, abort_error, code_from_status,
  as_remote_error_code,
}
use beam_sdk_public.Server.Json.{Json, Fields, end, null, obj, get, as_string}
use beam_sdk_public.Retry.Loop.{Outcome, ok, err}
use beam_sdk_public.Http.Messages.{HttpPlatform, Response, or_else}

-- `a ?? b`, of a member and of a value.
abbrev nullish : Option Json → Option Json
nullish none = none
nullish (some null) = none
nullish (some v) = some v

abbrev string_or : HttpPlatform → Option Json → Option Text → Option Text
string_or p none b = b
string_or p (some v) b = some (p.to_string v)

abbrev fields_of : Option Json → Fields
fields_of (some (obj fs)) = fs
fields_of (some null) = end
fields_of _ = end

abbrev body_of : HttpPlatform → Option Text → Fields
body_of p none = end
body_of p (some []) = end
body_of p (some (c ∷ t)) = fields_of (p.parse_json (c ∷ t))

-- `text ? text.slice(0, 200) : response.statusText`.
abbrev fallback : Option Text → Text → Text
fallback none status_text = status_text
fallback (some []) status_text = status_text
fallback (some (c ∷ t)) status_text = take 200 (c ∷ t)

abbrev number_of : HttpPlatform → Option Text → Option ℕ
number_of p none = none
number_of p (some t) = p.to_number t

unfoldable pub to_beam_error : HttpPlatform → Response → Text → BeamError
to_beam_error p r url =
    let body = body_of p r.text in
    let message =
      or_else
        (string_or p (nullish (get (codes "error") body))
          (string_or p (nullish (get (codes "message") body)) none))
        (fallback r.text r.status_text) in
    let request_id = string_or p (nullish (get (codes "request_id") body)) (
      string_or p (nullish (get (codes "requestId") body))
        (get_at (codes "x-request-id") r.headers)) in
    let code =
      or_else (as_remote_error_code (as_string (get (codes "code") body)))
        (code_from_status r.status) in
    if r.status == 401
    then auth_error (codes "Beam rejected the request as unauthenticated: " ++ message)
        (record (with_code auth_expired) {
          status = some 401;
          request_id = request_id;
          retryable = some false;
        })
    else api_error
        (codes "Beam request to "
          ++ p.pathname url
          ++ codes " failed ("
          ++ decimal r.status
          ++ codes "): "
          ++ message)
        (record (with_code code) {
          status = some r.status;
          request_id = request_id;
          retry_after_seconds = number_of p (get_at (codes "retry-after") r.headers);
        })

pub data Reply : Type 0 where
  raw_response : Response → Reply
  undefined : Reply
  json_reply : Json → Reply

abbrev is_own : ErrorClass → Bool
is_own timeout_class = true
is_own abort_class = true
is_own _ = false

abbrev is_deadline : Thrown → Bool
is_deadline (beam e) = is_own e.class
is_deadline (other t) = false

-- The `catch` block of the fetch. Of the messages, `at` is the method and the URL.
unfoldable pub fetch_error : Text → Text → Thrown → Bool → Bool → Thrown
fetch_error at after cause timed_out aborted =
    if is_deadline cause
    then cause
    else if timed_out
    then beam (timeout_error (at ++ codes " exceeded " ++ after ++ codes "ms."))
    else if aborted
    then beam abort_error
    else beam (
        network_error (
          at
          ++ codes
              " could not be completed. Check connectivity and that the endpoint allows this origin (CORS)."))

abbrev pub is_ok : ℕ → Bool
is_ok status = leb 200 status && ltb status 300

abbrev parsed_reply : Text → ℕ → Option Json → Outcome Reply
parsed_reply at status (some v) = ok (json_reply v)
parsed_reply at status none = err (
    beam (
      api_error (codes "Beam returned a non-JSON body for " ++ at ++ codes ".")
        (record (with_code protocol) { status = some status })))

abbrev text_reply : HttpPlatform → Text → ℕ → Option Text → Outcome Reply
text_reply p at status none = err (other (codes "the body cannot be read"))
text_reply p at status (some []) = ok undefined
text_reply p at status (some (c ∷ t)) = parsed_reply at status (p.parse_json (c ∷ t))

abbrev same_as : Option Text → Text → Bool
same_as none t = false
same_as (some u) t = text_eq u t

-- What becomes of a response that is `ok`.
unfoldable pub reply_of : HttpPlatform → Text → Bool → Response → Outcome Reply
reply_of p at raw r =
    if raw
    then ok (raw_response r)
    else if (r.status == 204) || same_as (get_at (codes "content-length") r.headers) (codes "0")
    then ok undefined
    else text_reply p at r.status r.text
