-- ===== src/Errors/Classes.antt =====
-- packages/web-sdk/src/core/errors/index.ts: the class `BeamError` and its subclasses. The subclass is
-- a field, for `instanceof`. What is thrown and is no `BeamError` is `other`.
use beam_sdk_public.Common.{ℕ, Bool, false, Option, none, some, Text, codes}
use beam_sdk_public.Errors.Codes.{
  ErrorCode, is_retryable, config_invalid, network, timeout, aborted, unsupported_environment,
}

pub data ErrorClass : Type 0 where
  base config_class auth_class api_class network_class timeout_class abort_class : ErrorClass
  unsupported_class : ErrorClass

pub record BeamErrorOptions : Type 0 where
  pub code : ErrorCode
  pub status : Option ℕ
  pub request_id : Option Text
  pub retryable : Option Bool
  pub retry_after_seconds : Option ℕ

pub record BeamError : Type 0 where
  pub class : ErrorClass
  pub message : Text
  pub code : ErrorCode
  pub status : Option ℕ
  pub request_id : Option Text
  pub retryable : Bool
  pub retry_after_seconds : Option ℕ

abbrev or_default : Option Bool → Bool → Bool
or_default none b = b
or_default (some a) b = a

-- The constructor of `BeamError`, run for a subclass.
unfoldable pub beam_error : ErrorClass → Text → BeamErrorOptions → BeamError
unfolding is_retryable
beam_error c message o = record {
  class = c;
  message = message;
  code = o.code;
  status = o.status;
  request_id = o.request_id;
  retryable = or_default o.retryable (is_retryable o.code);
  retry_after_seconds = o.retry_after_seconds;
}

abbrev pub with_code : ErrorCode → BeamErrorOptions
with_code c = record {
  code = c;
  status = none;
  request_id = none;
  retryable = none;
  retry_after_seconds = none;
}

unfoldable pub config_error : Text → BeamError
unfolding beam_error
config_error m =
    beam_error config_class m (record (with_code config_invalid) { retryable = some false })

-- `code` is `auth_failed` unless the options say `auth_expired`.
unfoldable pub auth_error : Text → BeamErrorOptions → BeamError
unfolding beam_error
auth_error m o = beam_error auth_class m o

unfoldable pub api_error : Text → BeamErrorOptions → BeamError
unfolding beam_error
api_error m o = beam_error api_class m o

unfoldable pub network_error : Text → BeamError
unfolding beam_error
network_error m = beam_error network_class m (with_code network)

unfoldable pub timeout_error : Text → BeamError
unfolding beam_error
timeout_error m = beam_error timeout_class m (with_code timeout)

unfoldable pub abort_error : BeamError
unfolding beam_error
abort_error =
    beam_error abort_class (codes "The operation was aborted.")
      (record (with_code aborted) { retryable = some false })

unfoldable pub unsupported_error : Text → BeamError
unfolding beam_error
unsupported_error m =
    beam_error unsupported_class m
      (record (with_code unsupported_environment) { retryable = some false })

-- Whatever JavaScript throws.
pub data Thrown : Type 0 where
  beam : BeamError → Thrown
  other : Text → Thrown
