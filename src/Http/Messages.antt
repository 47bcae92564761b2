-- ===== src/Http/Messages.antt =====
-- packages/web-sdk/src/core/transport/http.ts: what a request sends. The platform's URL and JSON functions are
-- parameters.
use beam_sdk_public.Common.{
  ℕ, Bool, true, false, ◌||◌, Option, none, some, List, [], ◌∷◌, ◌++◌, if◌then◌else◌, ◌==◌, Text,
  codes, get_at, set_at, starts_with,
}
use beam_sdk_public.Errors.{Thrown}
use beam_sdk_public.Receipts.TransferId.{to_lower}
use beam_sdk_public.Server.Json.{Json}
use beam_sdk_public.Retry.Backoff.{Sample}
use beam_sdk_public.Retry.Loop.{Outcome}

pub data Method : Type 0 where
  get_method post_method put_method delete_method patch_method : Method

pub data Body : Type 0 where
  text_body : Text → Body
  json_body : Json → Body

pub record RequestOptions : Type 0 where
  pub method : Option Method
  pub path : Text
  -- A value is its string, and `none` where it is undefined.
  pub query : List (Text × Option Text)
  pub body : Option Body
  pub headers : List (Text × Text)
  pub timeout_ms : Option ℕ
  pub idempotency_key : Option Text
  pub authenticated : Option Bool
  pub base_url : Option Text
  pub raw : Bool

pub record HttpRequest : Type 0 where
  pub url : Text
  pub method : Method
  pub headers : List (Text × Text)
  pub body : Option Text

pub record Response : Type 0 where
  pub status : ℕ
  pub status_text : Text
  -- `none` where reading throws.
  pub text : Option Text
  pub headers : List (Text × Text)

-- How the race of the fetch and the deadline ends: a rejection of the fetch has whether the deadline had passed
-- and whether the caller's signal was aborted.
pub data Fetched : Type 0 where
  responded : Response → Fetched
  expired cancelled : Fetched
  failed : Thrown → Bool → Bool → Fetched

pub data HttpCall : Type 0 where
  mints rejects : HttpCall
  fetches : HttpRequest → HttpCall

pub record HttpPlatform : Type 0 where
  pub parse_json : Text → Option Json
  pub stringify : Json → Text
  -- `String(value)`.
  pub to_string : Json → Text
  -- The URL with its query's parameters set, and the path of a URL.
  pub to_url : Text → List (Text × Text) → Text
  pub pathname : Text → Text
  -- `Number(header)`, if it is finite.
  pub to_number : Text → Option ℕ
  -- The random id that is drawn after these calls, newest first.
  pub random_uuid : List HttpCall → Text

pub record HttpIo : Type 0 where
  pub has_provider : Bool
  pub get_token : List HttpCall → Outcome Text
  pub fetch : List HttpCall → HttpRequest → Fetched
  pub aborted_before : ℕ → Bool
  pub aborted_waiting : ℕ → Bool
  pub sample : ℕ → Sample

pub record HttpTransport : Type 0 where
  pub base_url : Text
  pub timeout_ms : ℕ
  pub max_attempts : ℕ
  pub default_headers : List (Text × Text)

abbrev pub or_else {ℓ} : {A : Type ℓ} → Option A → A → A
or_else none b = b
or_else (some a) b = a

abbrev strip_start : Text → Text
strip_start [] = []
strip_start (c ∷ t) = let rest = strip_start t in if c == 47 then rest else c ∷ t

abbrev drop_slash : ℕ → Text → Text
drop_slash c [] = if c == 47 then [] else c ∷ []
drop_slash c (d ∷ t) = c ∷ d ∷ t

-- `.replace(/\/+$/, "")`.
unfoldable pub strip_end : Text → Text
strip_end [] = []
strip_end (c ∷ t) = drop_slash c (strip_end t)

unfoldable pub join_url : Text → Text → Text
join_url base path =
    let lower = to_lower path in
    if starts_with lower (codes "http://") || starts_with lower (codes "https://")
    then path
    else strip_end base ++ codes "/" ++ strip_start path

abbrev query_of : List (Text × Option Text) → List (Text × Text)
query_of [] = []
query_of ((k, none) ∷ q) = query_of q
query_of ((k, some v) ∷ q) = (k, v) ∷ query_of q

unfoldable pub build_url : HttpPlatform → Text → RequestOptions → Text
build_url p base o = p.to_url (join_url (or_else o.base_url base) o.path) (query_of o.query)

abbrev makes_key : Method → Bool
makes_key get_method = false
makes_key delete_method = false
makes_key _ = true

abbrev key_or : Option Text → Bool → Text → Option Text
key_or (some key) new uuid = some key
key_or none true uuid = some (codes "beam-" ++ uuid)
key_or none false uuid = none

-- The key that is made after these calls: that of the caller, or a new one unless the method is GET or DELETE.
unfoldable pub key_of : HttpPlatform → RequestOptions → List HttpCall → Option Text
key_of p o calls =
    key_or o.idempotency_key (makes_key (or_else o.method get_method)) (p.random_uuid calls)

abbrev set_all : List (Text × Text) → List (Text × Text) → List (Text × Text)
set_all [] m = m
set_all ((k, v) ∷ hs) m = set_all hs (set_at k v m)

abbrev set_missing : Option Text → List (Text × Text) → List (Text × Text)
set_missing none m = set_at (codes "content-type") (codes "application/json") m
set_missing (some v) m = m

abbrev with_content_type : Option Body → List (Text × Text) → List (Text × Text)
with_content_type none m = m
with_content_type (some b) m = set_missing (get_at (codes "content-type") m) m

abbrev pub with_key : Option Text → List (Text × Text) → List (Text × Text)
with_key none m = m
with_key (some key) m = set_at (codes "Idempotency-Key") key m

abbrev pub with_token : Option Text → List (Text × Text) → List (Text × Text)
with_token none m = m
with_token (some token) m = set_at (codes "authorization") (codes "Bearer " ++ token) m

abbrev pub base_headers : HttpTransport → RequestOptions → List (Text × Text)
base_headers t o = with_content_type o.body (
    set_all o.headers (set_all t.default_headers ((codes "accept", codes "application/json") ∷ [])))

abbrev sent_body : HttpPlatform → Option Body → Option Text
sent_body p none = none
sent_body p (some (text_body t)) = some t
sent_body p (some (json_body v)) = some (p.stringify v)

unfoldable pub http_request :
    HttpPlatform → HttpTransport → RequestOptions → Option Text → Option Text → HttpRequest
http_request p t o key token = record {
  url = build_url p (strip_end t.base_url) o;
  method = or_else o.method get_method;
  headers = with_token token (with_key key (base_headers t o));
  body = sent_body p o.body;
}
