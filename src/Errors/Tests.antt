-- ===== src/Errors/Tests.antt =====
-- Errors of providers and of the gateway, and the theorems about them at one error.
use tee_gateway.Prelude.{◌≡◌, refl, some, none, true, false, ◌≤◌, ◌<◌, ◌⊎◌, length}
use tee_gateway.Prelude.Int.{pos}
use tee_gateway.Prelude.Text.{Text, codes, strip, before}
use tee_gateway.Errors.{
  PyException, integer, other, boolean, is_provider_exception, provider_status, squash, truncate,
  message, provider, gateway, http_status_for, http_status_of, error_response,
}
use tee_gateway.Errors.Status.{
  IsOuterStatus, IsRetryStatus, error_response-IsOuterStatus, error_response-consistent,
  message_bounds, provider_status_range,
}

abbrev overloaded : PyException
overloaded = record {
  status_code = integer (pos 529);
  status = other;
  code = boolean true;
  response_status = other;
  is_http_error = false;
  is_timeout_exception = false;
  is_timeout_error = false;
  is_transport_error = false;
  is_connection_error = false;
  module_name = codes "anthropic._exceptions";
  type_name = codes "OverloadedError";
  text = codes "  model is   overloaded ";
}

abbrev gateway_bug : PyException
gateway_bug = record overloaded { module_name = codes "builtins"; type_name = codes "ValueError" }

abbrev fallback : Text
fallback = codes "Request processing failed"

overloaded_status : http_status_for overloaded ≡ 502
unfolding http_status_for http_status_of is_provider_exception provider_status before
overloaded_status = refl

gateway_bug_status : http_status_for gateway_bug ≡ 500
unfolding http_status_for is_provider_exception before
gateway_bug_status = refl

overloaded-message : message overloaded fallback ≡ codes "model is overloaded"
unfolding message truncate squash strip
overloaded-message = refl

provider_status_range_instance : (100 ≤ 529) × (529 ≤ 599)
unfolding provider_status
provider_status_range_instance = provider_status_range overloaded 529 refl

error_response-IsOuterStatus_instance : IsOuterStatus (error_response overloaded fallback).1
error_response-IsOuterStatus_instance = error_response-IsOuterStatus overloaded fallback

error_response-consistent_example :
    (let (payload, status) = error_response overloaded fallback in
      (payload.source ≡ gateway
        → (status ≡ 500) × (payload.provider_status ≡ none) × (payload.retryable ≡ false))
      × (payload.retryable ≡ true → (payload.source ≡ provider) × IsRetryStatus status)
      × (status < 500 → payload.provider_status ≡ some status))
error_response-consistent_example = error_response-consistent overloaded fallback

message_bounds_instance :
    (message overloaded fallback ≡ fallback)
    ⊎ ((1 ≤ length (message overloaded fallback)) × (length (message overloaded fallback) ≤ 601))
message_bounds_instance = message_bounds overloaded fallback
