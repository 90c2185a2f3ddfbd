-- ===== src/Api/Errors.antt =====
-- internal/api/api.go: the response to an error (writeContractError and writeStoreErr).
use vibe_forge.Base.{ℕ, Bool, Text, codes}
use vibe_forge.Contract.{ErrorCode, internal, http_status_for, is_retryable}
use vibe_forge.Store.Model.{Details, no_details, Error, coded, database}

pub record ErrorResponse : Type 0 where
  pub status : ℕ
  pub code : ErrorCode
  pub message : Text
  pub retryable : Bool
  pub details : Details

unfoldable pub write_contract_error : ErrorCode → Text → ErrorResponse
write_contract_error code message = record {
  status = http_status_for code;
  code = code;
  message = message;
  retryable = is_retryable code;
  details = no_details;
}

-- Any error that is no store.Error is an internal one, without a word on what it was.
unfoldable pub write_store_err : Error → ErrorResponse
write_store_err (coded code message details) = record {
  status = http_status_for code;
  code = code;
  message = message;
  retryable = is_retryable code;
  details = details;
}
write_store_err database = write_contract_error internal (codes "internal error")
