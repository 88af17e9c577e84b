-- ===== src/Shared/Errors.antt =====
-- app/shared/exceptions.py: the hierarchy of `AppError` and the response that each error becomes,
-- with the failures that come from below the services. An id in a message is left out of the text.
use lms_backend.Base.{ℕ, String}

-- the subclasses of `AppError`
pub data AppError : Type 0 where
  not_found conflict validation authentication permission_denied module_not_enabled : AppError
  tenant_resolution rate_limit : AppError

pub data Error : Type 0 where
  app : AppError → String → Error
  -- `RuntimeError`, of `require_tenant_id`
  runtime_error : String → Error
  -- `sqlalchemy.exc.IntegrityError`: a row clashes on a unique constraint
  integrity_error : Error
  -- `sqlalchemy.exc.MultipleResultsFound`, of `scalar_one_or_none`
  multiple_results_found : Error
  -- the database refuses a row by the `WITH CHECK` of its policy
  policy_violation : Error
  -- `TokenError`
  token_error : String → Error
  -- `pydantic.ValidationError`, of a payload that has not the fields of its schema
  schema_error : Error
  -- `ValueError`
  value_error : Error

abbrev pub app_status_code : AppError → ℕ
app_status_code not_found = 404
app_status_code conflict = 409
app_status_code validation = 422
app_status_code authentication = 401
app_status_code permission_denied = 403
app_status_code module_not_enabled = 403
app_status_code tenant_resolution = 400
app_status_code rate_limit = 429

abbrev pub app_code : AppError → String
app_code not_found = "not_found"
app_code conflict = "conflict"
app_code validation = "validation_error"
app_code authentication = "unauthenticated"
app_code permission_denied = "permission_denied"
app_code module_not_enabled = "module_not_enabled"
app_code tenant_resolution = "tenant_required"
app_code rate_limit = "rate_limited"

-- The handlers `_app_error` and `_unhandled`: the status of the response.
abbrev pub status_code : Error → ℕ
status_code (app e _) = app_status_code e
status_code _ = 500

-- The `code` of the error envelope.
abbrev pub code : Error → String
code (app e _) = app_code e
code _ = "internal_error"

pub data Result (A : Type 0) : Type 0 where
  ok : A → Result A
  err : Error → Result A
