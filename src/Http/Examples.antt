-- ===== src/Http/Examples.antt =====
-- Runs of packages/web-sdk/src/core/transport/http.ts, and the theorem at a concrete input.
use beam_sdk_public.Common.{
  ℕ, ◌+◌, ◌≤◌, ◌≡◌, refl, max, true, false, Option, none, some, List, [], codes, text_eq, ◌==◌,
  get_at, set_at, starts_with, decimal, length, if◌then◌else◌,
}
use beam_sdk_public.Receipts.TransferId.{to_lower}
use beam_sdk_public.Server.Json.{null, bool}
use beam_sdk_public.Retry.Loop.{Outcome, ok, with_retry, with_retry_from}
use beam_sdk_public.Http.Messages.{
  HttpPlatform, RequestOptions, post_method, json_body, HttpCall, HttpTransport, Response,
  responded, http_request, join_url, strip_end,
}
use beam_sdk_public.Http.Replies.{Reply, json_reply, reply_of}
use beam_sdk_public.Http.Requesting.{
  Sending, Requested, request, retry_env, state_at, execute, try_once, send,
}
use beam_sdk_public.Http.Calls.{rejections, sent, Keyed, request_total}

abbrev platform : HttpPlatform
platform = record {
  parse_json = λ t. some (bool true);
  stringify = λ v. codes "true";
  to_string = λ v. codes "true";
  to_url = λ url query. url;
  pathname = λ url. url;
  to_number = λ t. none;
  random_uuid = λ h. decimal (length h);
}

abbrev options : RequestOptions
options = record {
  method = some post_method;
  path = codes "/rooms";
  query = [];
  body = some (json_body null);
  headers = [];
  timeout_ms = none;
  idempotency_key = none;
  authenticated = none;
  base_url = none;
  raw = false;
}

abbrev transport : HttpTransport
transport = record {
  base_url = codes "https://beam/";
  timeout_ms = 30000;
  max_attempts = 3;
  default_headers = [];
}

abbrev response : ℕ → Response
response status = record {
  status = status;
  status_text = [];
  text = some (codes "true");
  headers = [];
}

-- The first token is rejected, and the next one is not.
abbrev status_after : List HttpCall → ℕ
status_after h = if rejections h == 0 then 401 else 200

abbrev posting : Sending
posting = record {
  platform = platform;
  io = record {
    has_provider = true;
    get_token = λ h. ok (codes "t");
    fetch = λ h q. responded (response (status_after h));
    aborted_before = λ n. false;
    aborted_waiting = λ n. false;
    sample = λ n. record { num = 1; den = 2 };
  };
  transport = transport;
  options = options;
}

joined : join_url (codes "https://beam//") (codes "/rooms") ≡ codes "https://beam/rooms"
unfolding join_url strip_end to_lower starts_with
joined = refl

-- The results and how many requests are sent.
abbrev outline : Option Requested → Option (Outcome Reply × ℕ × ℕ)
outline none = none
outline (some r) = some (r.result, rejections r.calls, sent r.calls)

reminted : outline (request posting) ≡ some (ok (json_reply (bool true)), 1, 2)
unfolding request with_retry with_retry_from retry_env state_at execute try_once send http_request
    reply_of text_eq get_at set_at
reminted = refl

request_total_example :
    (r : Requested) × (request posting ≡ some r)
    × (rejections r.calls ≤ 1)
    × (sent r.calls ≤ max 3 1 + rejections r.calls)
    × Keyed posting r.calls
request_total_example = request_total posting
