-- ===== src/Gateway/Requests.antt =====
-- Requests from the first byte of their headers to their last write.
use lms_backend.Base.{◌≡◌, refl, sym, ap, ◌∙◌, String, Bool, true, false, Option, none, some, arith}
use lms_backend.Shared.Errors.{Result, ok, err, token_error}
use lms_backend.Models.{Uuid}
use lms_backend.Store.{Db, World, Action, case_option}
use lms_backend.Store.Relations.{IsPreorder, Obeys, obeys_rules}
use lms_backend.Store.Runs.{bind-value}
use lms_backend.Database.{SameOutside, bind_rls, no_gucs}
use lms_backend.Database.Sessions.{settle, tenant_session}
use lms_backend.External.{External, TokenPayload}
use lms_backend.Security.{decode_token, try_token, handle_token}
use lms_backend.Tenancy.{get_by_slug, read_slug, write_slug, look_up, resolve_tenant_id}
use lms_backend.Api.{Queries, Endpoint, serve}
use lms_backend.Api.Isolation.{is_platform, serve-SameOutside}
use lms_backend.Gateway.{
  Headers, identity_of_header, resolve_identity, request_context, within, handle_request,
}

-- The tables and the settings are the same.
record KeepsTables (w w' : World) : Type 0 where
  db : w'.db ≡ w.db
  settings : w'.settings ≡ w.settings

keeps_tables : IsPreorder KeepsTables
keeps_tables = record {
  refl_lem = λ w. record { db = refl; settings = refl };
  trans = λ u v w h k. record { db = k.db ∙ h.db; settings = k.settings ∙ h.settings };
}

settle-KeepsTables :
    {A : Type 0} (before : World) (r : Result A) (w : World)
    → KeepsTables before w
    → KeepsTables before (settle before r w).1
settle-KeepsTables before (ok a) w k = record { db = k.db; settings = k.settings }
settle-KeepsTables before (err e) w k = record { db = refl; settings = k.settings }

tenant_session-KeepsTables :
    {A : Type 0} (t : Option Uuid) (b : Bool) (m : Action A)
    → Obeys KeepsTables m
    → Obeys KeepsTables (tenant_session t b m)
unfolding tenant_session
tenant_session-KeepsTables t b m h = record {
  at = λ w.
      let w0 = record w { gucs = bind_rls w.settings.enable_row_level_security t b no_gucs } in
      let (r, w') = m w0 in
      let k = h.at w0 in settle-KeepsTables w r w' (record { db = k.db; settings = k.settings });
}

from_same : (t : Uuid) {d d' e e' : Db} → d ≡ d' → e ≡ e' → SameOutside t d' e' → SameOutside t d e
from_same t p q h = rw (p, q) h

module _ (x : External) (q : Queries) where
  read_slug-KeepsTables : (slug : String) → Obeys KeepsTables (read_slug x slug)
  unfolding read_slug
  read_slug-KeepsTables slug = record { at = λ w. record { db = refl; settings = refl } }

  write_slug-KeepsTables : (slug : String) (t : Uuid) → Obeys KeepsTables (write_slug x slug t)
  unfolding write_slug case_option
  write_slug-KeepsTables slug t = record {
    at = λ w. record { db = ground arith; settings = ground arith };
  }

  resolve_tenant_id-KeepsTables : (name : String) → Obeys KeepsTables (resolve_tenant_id x name)
  unfolding resolve_tenant_id look_up get_by_slug
  resolve_tenant_id-KeepsTables name =
      search
        (
          obeys_rules, keeps_tables, tenant_session-KeepsTables, read_slug-KeepsTables,
          write_slug-KeepsTables,
        )
        depth 24

  identity_of_header-KeepsTables : (h : Headers) → Obeys KeepsTables (identity_of_header x q h)
  unfolding identity_of_header
  identity_of_header-KeepsTables h =
      search (obeys_rules, keeps_tables, resolve_tenant_id-KeepsTables) depth 12

  handle_token-KeepsTables :
      {A B : Type 0} (r : Result A) (handler : String → Action B) (f : A → Action B)
      → ((t : String) → Obeys KeepsTables (handler t))
      → ((a : A) → Obeys KeepsTables (f a))
      → Obeys KeepsTables (handle_token r handler f)
  handle_token-KeepsTables (ok a) handler f h k = k a
  handle_token-KeepsTables (err (token_error t)) handler f h k = h t
  handle_token-KeepsTables (err _) handler f h k = record { at = keeps_tables.refl_lem }

  try_decoded-KeepsTables :
      {B : Type 0} (token : String) (handler : String → Action B) (f : TokenPayload → Action B)
      → ((t : String) → Obeys KeepsTables (handler t))
      → ((a : TokenPayload) → Obeys KeepsTables (f a))
      → Obeys KeepsTables (try_token (decode_token x token (some "access")) handler f)
  unfolding try_token decode_token
  try_decoded-KeepsTables token handler f h k = record {
    at = λ w.
        (handle_token-KeepsTables (decode_token x token (some "access") w).0 handler f h k).at w;
  }

  resolve_identity-KeepsTables : (h : Headers) → Obeys KeepsTables (resolve_identity x q h)
  unfolding resolve_identity
  resolve_identity-KeepsTables h =
      search (obeys_rules, keeps_tables, identity_of_header-KeepsTables, try_decoded-KeepsTables)
        depth 12

  within-SameOutside :
      (h : Headers) (t : Uuid) (user : Option Uuid) (e : Endpoint) (credentials : Option String)
      (w : World)
      → is_platform e ≡ false
      → w.settings.enable_row_level_security ≡ true
      → SameOutside t w.db
          (within x q (request_context x q h (some t, user)) (serve x q e credentials) w).1.db
  unfolding within
  within-SameOutside h t user e credentials w tenant_only rls =
      serve-SameOutside x q e credentials
        (record w { ctx = some (request_context x q h (some t, user)) }) t tenant_only rls refl refl

  -- A request whose headers identify a tenant, by a token or by name, to an endpoint other than those of
  -- the platform's administrators leaves the rows of every other tenant as they are in each of the ten
  -- protected tables of the model, with row-level security enabled, whoever sends it and whether it
  -- succeeds or not; it says nothing of the audit log and of the tables of tenants and licences.
  pub handle_request-SameOutside :
      (h : Headers) (e : Endpoint) (t : Uuid) (user : Option Uuid) (w : World)
      → is_platform e ≡ false
      → w.settings.enable_row_level_security ≡ true
      → (resolve_identity x q h w).0 ≡ ok (some t, user)
      → SameOutside t w.db (handle_request x q h e w).1.db
  unfolding handle_request
  handle_request-SameOutside h e t user w tenant_only rls known =
      let run = λ (identity : Option Uuid × Option Uuid).
        within x q (request_context x q h identity)
          (serve x q e (case_option h.authorization none x.bearer_credentials)) in
      let kept = (resolve_identity-KeepsTables h).at w in
      let all = bind-value (resolve_identity x q h) run w (some t, user) known in
      from_same t (sym kept.db) (ap (λ o. o.1.db) all) (
        within-SameOutside h t user e _ (resolve_identity x q h w).1 tenant_only
          (ap (λ s. s.enable_row_level_security) kept.settings ∙ rls))
