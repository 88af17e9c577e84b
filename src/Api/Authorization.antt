-- ===== src/Api/Authorization.antt =====
-- Who gets an answer from the endpoints that take a user.
use lms_backend.Base.{
  ◌≡◌, refl, sym, ◌∙◌, ap, String, true, Option, none, some, List, eq_iff, string_eq, ◌==◌, nat_eq,
  arith,
}
use lms_backend.Shared.Errors.{Error, Result, ok, err, token_error, app, authentication}
use lms_backend.Models.{Uuid, User, ModuleCode}
use lms_backend.Store.{World, Action, tenant_of, lift, raise, case_option}
use lms_backend.Store.Relations.{IsPreorder, Obeys, obeys_rules}
use lms_backend.Store.Runs.{bind-ok, Passes-ok, if_ok, modify-pure}
use lms_backend.Database.{get}
use lms_backend.Database.Visible.{Found, get-Found}
use lms_backend.Database.Sessions.{request_gucs, get_db-value}
use lms_backend.Database.Tables.{user_model}
use lms_backend.External.{External, TokenPayload, Decoded, payload, malformed, expired, invalid}
use lms_backend.Security.{decode_token, try_token, handle_token, check_decoded}
use lms_backend.Licensing.{enabled_codes, compute_enabled, tenant_has_module, require_module}
use lms_backend.Api.Routes.{Queries, UserEndpoint, Response, for_user, permissions_of, module_of}
use lms_backend.Api.Endpoints.{guard_module, guard_user, run_endpoint, serve}
use lms_backend.Auth.Dependencies.{check_active, load_user, get_current_user, require_permission}
use lms_backend.Api.Permissions.{MayUse, require_permission_iff, ok-require_permission}

-- Two states that differ at most in the commands given to Redis.
record SameButRedis (w w' : World) : Type 0 where
  db : w'.db ≡ w.db
  ctx : w'.ctx ≡ w.ctx
  settings : w'.settings ≡ w.settings
  now : w'.now ≡ w.now

same_but_redis : IsPreorder SameButRedis
same_but_redis = record {
  refl_lem = λ w. record { db = refl; ctx = refl; settings = refl; now = refl };
  trans = λ u v w h k. record {
    db = k.db ∙ h.db;
    ctx = k.ctx ∙ h.ctx;
    settings = k.settings ∙ h.settings;
    now = k.now ∙ h.now;
  };
}

module _ (x : External) (q : Queries) where
  enabled_codes-SameButRedis : (t : Uuid) → Obeys SameButRedis (enabled_codes x t)
  unfolding enabled_codes compute_enabled case_option
  enabled_codes-SameButRedis t = record {
    at = λ w. record {
      db = ground arith;
      ctx = ground arith;
      settings = ground arith;
      now = ground arith;
    };
  }

  guard_module-SameButRedis :
      (code : Option ModuleCode) → Obeys SameButRedis (guard_module x q code)
  unfolding guard_module require_module tenant_has_module
  guard_module-SameButRedis none = search (obeys_rules, same_but_redis)
  guard_module-SameButRedis (some code) =
      search (obeys_rules, same_but_redis, enabled_codes-SameButRedis) depth 12

  -- The reason for which a user is let through: an access token that is valid now, of a user of the
  -- tenant who is in the database, active and permitted.
  pub record Admitted (t : Uuid) (codes : List String) (credentials : Option String) (w : World)
      (user : User) : Type 0 where
    pub token : String
    pub credentials_lem : credentials ≡ some token
    pub claims : TokenPayload
    pub decoded : x.decode w.settings.jwt_secret_key w.now token ≡ payload claims
    pub type_lem : claims.type ≡ "access"
    pub found : Found t (λ (u : User). u.id == claims.sub) w.db user
    pub active : user.is_active ≡ true
    pub may_use : MayUse codes user

  try_token-ok :
      {A B : Type 0} (r : Result A) (message : String → Error) (f : A → Action B) (w : World)
      (b : B)
      → (handle_token r (λ e. raise (message e)) f w).0 ≡ ok b
      → (a : A) × ((r ≡ ok a) × ((f a w).0 ≡ ok b))
  unfolding raise
  try_token-ok (ok a) message f w b h = (a, (refl, h))
  try_token-ok (err (token_error s)) message f w b h = ground arith
  try_token-ok (err _) message f w b h = ground arith

  check_decoded-access :
      (d : Decoded) (p : TokenPayload)
      → check_decoded x d (some "access") ≡ ok p
      → (d ≡ payload p) × (p.type ≡ "access")
  check_decoded-access (payload q) p h =
      let (type, same) = if_ok (q.type == "access") q p _ h in
      (ap payload same, ap (λ c. c.type) (sym same) ∙ (eq_iff q.type "access").0 type)
  check_decoded-access malformed p h = ground arith
  check_decoded-access expired p h = ground arith
  check_decoded-access invalid p h = ground arith

  check_active-ok :
      (found : Option User) (user : User)
      → check_active found ≡ ok user
      → (found ≡ some user) × (user.is_active ≡ true)
  unfolding check_active
  check_active-ok none user h = ground arith
  check_active-ok (some u) user h =
      let (is_active, same) = if_ok u.is_active u user _ h in
      (ap some same, ap (λ (v : User). v.is_active) (sym same) ∙ is_active)

  load_user-ok :
      (p : TokenPayload) (w : World) (user : User)
      → (load_user x p w).0 ≡ ok user
      → ((get p.sub w).0 ≡ ok (some user)) × (user.is_active ≡ true)
  unfolding load_user lift
  load_user-ok p w user h =
      let a = bind-ok (get {Row = User} p.sub) _ w user h in
      let ha = Passes-ok _ _ w a user h in
      let b = bind-ok (lift (check_active a.value)) _ (get {Row = User} p.sub w).1 user ha in
      let hb = Passes-ok _ _ _ b user ha in
      let same : b.value ≡ user = modify-pure _ b.value user _ hb in
      let (row, is_active) = check_active-ok a.value user (b.first ∙ ap ok same) in
      (a.first ∙ ap ok row, is_active)

  get_current_user-ok :
      (credentials : Option String) (w : World) (user : User)
      → (get_current_user x credentials w).0 ≡ ok user
      → (token : String) × ((credentials ≡ some token)
          × ((p : TokenPayload) × ((x.decode w.settings.jwt_secret_key w.now token ≡ payload p)
                × ((p.type ≡ "access") × ((load_user x p w).0 ≡ ok user)))))
  unfolding get_current_user try_token decode_token raise
  get_current_user-ok none w user h = ground arith
  get_current_user-ok (some token) w user h =
      let (p, (checked, loaded)) =
        try_token-ok
          (check_decoded x (x.decode w.settings.jwt_secret_key w.now token) (some "access"))
          (λ e. app authentication e) (load_user x) w user h in
      let (decoded, type) = check_decoded-access _ p checked in
      (token, (refl, (p, (decoded, (type, loaded)))))

  guard_user-Admitted :
      (t : Uuid) (codes : List String) (credentials : Option String) (w : World) (user : User)
      → tenant_of w.ctx ≡ some t
      → (guard_user x q codes credentials w).0 ≡ ok user
      → Admitted t codes credentials w user
  unfolding guard_user lift
  guard_user-Admitted t codes credentials w user tenant h =
      let a = bind-ok (get_current_user x credentials) _ w user h in
      let permitted = Passes-ok _ _ w a user h in
      let same = ok-require_permission codes a.value user permitted in
      let (token, (given, (p, (decoded, (type, loaded))))) =
        get_current_user-ok credentials w user (a.first ∙ ap ok same) in
      let (row, active) = load_user-ok p w user loaded in
      record {
        token = token;
        credentials_lem = given;
        claims = p;
        decoded = decoded;
        type_lem = type;
        found = get-Found w t p.sub user tenant row;
        active = active;
        may_use =
            (require_permission_iff codes user).0
              (ap (require_permission codes) (sym same) ∙ permitted);
      }

  Admitted-transport :
      (t : Uuid) (codes : List String) (credentials : Option String) (w w' : World) (user : User)
      → SameButRedis w w'
      → Admitted t codes credentials w' user
      → Admitted t codes credentials w user
  Admitted-transport t codes credentials w w' user same a = record {
    token = a.token;
    credentials_lem = a.credentials_lem;
    claims = a.claims;
    decoded = rw (same.settings, same.now) at (a.decoded);
    type_lem = a.type_lem;
    found = rw (same.db) at (a.found);
    active = a.active;
    may_use = a.may_use;
  }

  -- An endpoint that takes a user answers a request in the context of tenant `t` only if its bearer is an
  -- access token that is valid at that time, of a user who is in the database, belongs to `t`, is not
  -- deleted, is active, and is a superuser or has each permission that the endpoint asks for.
  pub serve-Admitted :
      (e : UserEndpoint) (credentials : Option String) (w : World) (t : Uuid) (r : Response)
      → tenant_of w.ctx ≡ some t
      → (serve x q (for_user e) credentials w).0 ≡ ok r
      → (user : User) × Admitted t (permissions_of e) credentials w user
  unfolding serve run_endpoint
  serve-Admitted e credentials w t r tenant h =
      let w0 = record w { gucs = request_gucs w } in
      let ran = sym (get_db-value (run_endpoint x q (for_user e) credentials) w) ∙ h in
      let m = guard_module x q (module_of (for_user e)) in
      let same = (guard_module-SameButRedis (module_of (for_user e))).at w0 in
      let a = bind-ok m _ w0 r ran in
      let w1 = (m w0).1 in
      let b =
        bind-ok (guard_user x q (permissions_of e) credentials) _ w1 r (Passes-ok _ _ w0 a r ran) in
      let admitted =
        guard_user-Admitted t (permissions_of e) credentials w1 b.value
          (ap tenant_of same.ctx ∙ tenant) b.first in
      (
        b.value,
        Admitted-transport t (permissions_of e) credentials w w1 b.value
            (record { db = same.db; ctx = same.ctx; settings = same.settings; now = same.now })
            admitted,
      )
