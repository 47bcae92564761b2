-- ===== src/Errors.antt =====
-- packages/web-sdk/src/core/errors/index.ts: error codes, the error classes and the mapping of HTTP
-- statuses. `Error.cause` and `toJSON` are left out.
mod Codes
mod Classes
pub use Codes.*
unfoldable pub use Codes.{code_from_status, as_remote_error_code, is_retryable, remote_code_name}
pub use Classes.*
unfoldable pub use Classes.{
  beam_error, config_error, auth_error, api_error, network_error, timeout_error, abort_error,
  unsupported_error,
}
