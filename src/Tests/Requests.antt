-- ===== src/Tests/Requests.antt =====
-- The properties of the endpoints at a request of a student.
use lms_backend.Base.{lower, starts_with, none, refl, Option, some, String}
use lms_backend.Models.{User, ModuleCode, module_value}
use lms_backend.Courses.{get_course}
use lms_backend.Licensing.{
  core_codes, enabled_in, require_module, tenant_has_module, enabled_codes, compute_enabled,
}
use lms_backend.Api.Entitlement.{Entitled, serve-Entitled}
use lms_backend.Database.{SameOutside}
use lms_backend.Store.{case_option, ◌>>=◌}
use lms_backend.Database.{get, get_or_404, select_one, select_where, policy, bind_rls}
use lms_backend.Database.Sessions.{tenant_session, get_db}
use lms_backend.Security.{try_token, decode_token}
use lms_backend.Auth.Dependencies.{
  enrich, get_current_user, load_user, check_active, require_permission,
}
use lms_backend.Api.{
  run_endpoint, guard_module, guard_user, handle, serve, for_user, get_me, post_enroll,
  get_course_detail, permissions_of,
}
use lms_backend.Api.Isolation.{serve-SameOutside}
use lms_backend.Api.Authorization.{Admitted, serve-Admitted}
use lms_backend.Tenancy.{resolve_tenant_id, read_slug, look_up, get_by_slug, write_slug}
use lms_backend.Gateway.{Headers, resolve_identity, identity_of_header, handle_request}
use lms_backend.Gateway.Requests.{handle_request-SameOutside}
use lms_backend.Tests.Externals.{toy}
use lms_backend.Tests.Fixtures.{queries, world, tables, access_claims}

abbrev bearer : Option String
bearer = some (toy.encode "k" access_claims)

serve-SameOutside_example :
    SameOutside 1 world.db (serve toy queries (for_user (post_enroll 4)) bearer world).1.db
serve-SameOutside_example =
    serve-SameOutside toy queries (for_user (post_enroll 4)) bearer world 1 refl refl refl refl

serve-Admitted_example :
    (user : User) × Admitted toy queries 1 (permissions_of get_me) bearer world user
unfolding serve get_db run_endpoint ◌>>=◌ guard_module guard_user get_current_user try_token
    decode_token load_user get select_one select_where policy bind_rls check_active
    require_permission handle
serve-Admitted_example = serve-Admitted toy queries get_me bearer world 1 _ refl refl

-- no token, and the tenant by its slug
abbrev headers : Headers
headers = record {
  x_request_id = none;
  x_forwarded_for = none;
  authorization = none;
  tenant_header = some "acme";
  client = none;
}

handle_request-SameOutside_example :
    SameOutside 1 world.db (handle_request toy queries headers (for_user get_me) world).1.db
unfolding resolve_identity identity_of_header starts_with lower resolve_tenant_id read_slug look_up
    get_by_slug write_slug tenant_session bind_rls case_option ◌>>=◌
handle_request-SameOutside_example =
    handle_request-SameOutside toy queries headers (for_user get_me) 1 none world refl refl refl

serve-Entitled_example : Entitled toy tables 3 none 1 "COURSES"
unfolding serve get_db run_endpoint ◌>>=◌ guard_module guard_user get_current_user try_token
    decode_token load_user get select_one select_where policy bind_rls check_active
    require_permission handle module_value get_course require_module tenant_has_module enabled_codes
    compute_enabled case_option core_codes enabled_in get_or_404 enrich
serve-Entitled_example =
    serve-Entitled toy queries (get_course_detail 4) ModuleCode.courses bearer world 1 _ refl refl
      refl
