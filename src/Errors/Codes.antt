-- ===== src/Errors/Codes.antt =====
-- packages/web-sdk/src/core/errors/index.ts: `BeamErrorCode`, `RETRYABLE_CODES`, `codeFromStatus`,
-- `asRemoteErrorCode`. One data type holds both unions of codes; `is_remote` tells them apart.
use beam_sdk_public.Common.{
  ℕ, Bool, true, false, ◌||◌, Option, none, some, leb, ◌==◌, if◌then◌else◌, Text, codes, text_eq,
}

pub data ErrorCode : Type 0 where
  invalid_argument permission_denied not_found conflict resource_exhausted : ErrorCode
  unavailable internal source_access_denied destination_access_denied : ErrorCode
  config_invalid auth_failed auth_expired network timeout aborted : ErrorCode
  unsupported_environment protocol : ErrorCode

-- Membership in `RETRYABLE_CODES`.
unfoldable pub is_retryable : ErrorCode → Bool
is_retryable unavailable = true
is_retryable internal = true
is_retryable network = true
is_retryable timeout = true
is_retryable resource_exhausted = true
is_retryable _ = false

-- `BeamRemoteErrorCode`: the codes that Beam sends.
abbrev pub is_remote : ErrorCode → Bool
is_remote invalid_argument = true
is_remote permission_denied = true
is_remote not_found = true
is_remote conflict = true
is_remote resource_exhausted = true
is_remote unavailable = true
is_remote internal = true
is_remote source_access_denied = true
is_remote destination_access_denied = true
is_remote _ = false

unfoldable pub code_from_status : ℕ → ErrorCode
code_from_status status =
    if (status == 400) || (status == 422)
    then invalid_argument
    else if status == 401
    then auth_failed
    else if status == 403
    then permission_denied
    else if status == 404
    then not_found
    else if status == 409
    then conflict
    else if status == 429
    then resource_exhausted
    else if leb 500 status
    then (if status == 503 then unavailable else internal)
    else internal

-- How a remote code is spelled on the wire; `none` for a local one.
unfoldable pub remote_code_name : ErrorCode → Option Text
remote_code_name invalid_argument = some (codes "invalid_argument")
remote_code_name permission_denied = some (codes "permission_denied")
remote_code_name not_found = some (codes "not_found")
remote_code_name conflict = some (codes "conflict")
remote_code_name resource_exhausted = some (codes "resource_exhausted")
remote_code_name unavailable = some (codes "unavailable")
remote_code_name internal = some (codes "internal")
remote_code_name source_access_denied = some (codes "source_access_denied")
remote_code_name destination_access_denied = some (codes "destination_access_denied")
remote_code_name _ = none

unfoldable pub as_remote_error_code : Option Text → Option ErrorCode
as_remote_error_code none = none
as_remote_error_code (some t) =
    if text_eq t (codes "invalid_argument")
    then some invalid_argument
    else if text_eq t (codes "permission_denied")
    then some permission_denied
    else if text_eq t (codes "not_found")
    then some not_found
    else if text_eq t (codes "conflict")
    then some conflict
    else if text_eq t (codes "resource_exhausted")
    then some resource_exhausted
    else if text_eq t (codes "unavailable")
    then some unavailable
    else if text_eq t (codes "internal")
    then some internal
    else if text_eq t (codes "source_access_denied")
    then some source_access_denied
    else if text_eq t (codes "destination_access_denied")
    then some destination_access_denied
    else none
