-- ===== src/Gateway.antt =====
-- `RequestContextMiddleware` of app/core/middleware/context.py: the context that a request runs in. The
-- request id that it sends back in the response is left out.
use lms_backend.Base.{
  ℕ, zero, suc, String, Bool, true, false, ◌&&◌, ◌||◌, Option, none, some, List, [], ◌==◌, nat_eq,
  string_eq, lower, before, strip, drop_chars, starts_with, or_empty, if◌then◌else◌,
}
use lms_backend.Shared.Errors.{Result, ok, err}
use lms_backend.Models.{Uuid}
use lms_backend.Store.{World, RequestContext, Action, pure, modify, case_option, ◌>>=◌, ◌>>◌}
use lms_backend.External.{External, TokenPayload}
use lms_backend.Security.{decode_token, try_token}
use lms_backend.Tenancy.{resolve_tenant_id}
use lms_backend.Api.{Queries, Endpoint, Response, serve}
pub mod Requests

-- the headers that the middleware and the guards read, and the address of the client
pub record Headers : Type 0 where
  pub x_request_id : Option String
  pub x_forwarded_for : Option String
  pub authorization : Option String
  pub tenant_header : Option String
  pub client : Option String

-- `_client_ip`
unfoldable pub client_ip : Headers → Option String
client_ip h =
    if or_empty h.x_forwarded_for == ""
    then h.client
    else some (strip (before b',' (or_empty h.x_forwarded_for)))

module _ (x : External) (q : Queries) where
  -- the tenant that the header names
  unfoldable pub identity_of_header : Headers → Action (Option Uuid × Option Uuid)
  identity_of_header h =
      if or_empty h.tenant_header == ""
      then pure (none, none)
      else do t ← resolve_tenant_id x (or_empty h.tenant_header); pure (t, none)

  -- `_resolve_identity`
  unfoldable pub resolve_identity : Headers → Action (Option Uuid × Option Uuid)
  resolve_identity h =
      if starts_with "bearer " (lower (or_empty h.authorization))
      then try_token (decode_token x (drop_chars 7 (or_empty h.authorization)) (some "access"))
          (λ _. identity_of_header h) (λ p. pure (some p.tid, some p.sub))
      else identity_of_header h

  -- `headers.get("x-request-id") or str(uuid.uuid4())`; the text of a new id is not modelled
  abbrev pub request_context : Headers → Option Uuid × Option Uuid → RequestContext
  request_context h (tenant_id, user_id) = record {
    request_id = or_empty h.x_request_id;
    tenant_id = tenant_id;
    user_id = user_id;
    roles = [];
    permissions = [];
    ip_address = client_ip h;
    is_superadmin = false;
  }

  -- `set_context`, the application, and `reset_context`
  unfoldable pub within : {A : Type 0} → RequestContext → Action A → Action A
  within rc m w = let (r, w') = m (record w { ctx = some rc }) in (r, record w' { ctx = w.ctx })

  -- `__call__`
  unfoldable pub handle_request : Headers → Endpoint → Action Response
  handle_request h e = do
    identity ← resolve_identity h
    within (request_context h identity)
        (serve x q e (case_option h.authorization none x.bearer_credentials))
