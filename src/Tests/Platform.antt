-- ===== src/Tests/Platform.antt =====
-- The properties of the repositories, the licences and the bus at concrete inputs.
use lms_backend.Base.{
  ◌↔◌, ◌≡◌, refl, some, [], ◌∷◌, Bool, true, contains, string_eq, ◌==◌, nat_eq, suc, ℕ,
}
use lms_backend.Shared.Errors.{ok}
use lms_backend.Models.{Course, CourseStatus, course_status_eq}
use lms_backend.Store.{case_option, ◌>>=◌, World, set, enabled_modules, codes}
use lms_backend.Database.{bind_rls}
use lms_backend.Database.Tables.{course_model}
use lms_backend.Events.{
  DomainEvent, learning, lesson_completed, lesson_completed_event, domain_event, is_instance,
}
use lms_backend.Events.Bus.{Handler, EventBus, resolve, subscribe}
use lms_backend.Events.Dispatch.{Inserts, resolve-subscribe}
use lms_backend.Licensing.{enabled_in, tenant_has_module, invalidate, cache_ttl}
use lms_backend.Licensing.Entitled.{Granted, enabled_in_iff}
use lms_backend.Licensing.Access.{has_now, tenant_has_module-invalidate, tenant_has_module-cached}
use lms_backend.Database.Sessions.{tenant_session}
use lms_backend.Tenancy.{resolve_tenant_id, read_slug, write_slug, look_up, get_by_slug}
use lms_backend.Tenancy.Resolution.{IsServed, resolve_tenant_id-IsServed}
use lms_backend.Tests.Externals.{toy}
use lms_backend.Tests.Fixtures.{world, tables}

abbrev is_published : Course → Bool
is_published c = c.status == CourseStatus.published

enabled_in_iff_example :
    (contains (enabled_in tables 3 1) "COURSES" ≡ true) ↔ Granted tables 3 1 "COURSES"
enabled_in_iff_example = enabled_in_iff tables 3 1 "COURSES"

-- with a Redis that holds codes which the tables no longer grant
abbrev cached_world : World
cached_world = record world {
  redis = some (set 2 (enabled_modules 1) (codes ("LEARNING" ∷ [])) cache_ttl ∷ []);
}

tenant_has_module-invalidate_example :
    (tenant_has_module toy 1 "LEARNING" (invalidate toy 1 cached_world).1).0
    ≡ ok (has_now toy cached_world 1 "LEARNING")
tenant_has_module-invalidate_example = tenant_has_module-invalidate toy 1 "LEARNING" cached_world

-- a state with an empty Redis, and one at 40 seconds, after it was asked, in which the licence is gone
abbrev asked : World
asked = record world { redis = some [] }

abbrev withdrawn : World
withdrawn = record asked {
  db = record tables { tenant_modules = [] };
  now = 40;
  redis = (tenant_has_module toy 1 "COURSES" asked).1.redis;
}

tenant_has_module-cached_example :
    (tenant_has_module toy 1 "COURSES" withdrawn).0 ≡ ok (has_now toy asked 1 "COURSES")
tenant_has_module-cached_example =
    tenant_has_module-cached toy 1 "COURSES" [] asked withdrawn refl refl refl

-- a handler that counts
abbrev count : Handler ℕ
count event n = (ok tt, suc n)

abbrev bus : EventBus ℕ
bus = (domain_event, count ∷ []) ∷ (lesson_completed_event, count ∷ []) ∷ []

abbrev event : DomainEvent
event = record {
  event_id = 1;
  occurred_at = 1;
  tenant_id = some 1;
  user_id = some 2;
  payload = learning (lesson_completed 3 4);
}

resolve-subscribe_example :
    Inserts count
      (is_instance event.payload lesson_completed_event)
      (resolve bus event)
      (resolve (subscribe lesson_completed_event count bus) event)
resolve-subscribe_example = resolve-subscribe count lesson_completed_event bus event

resolve_tenant_id-IsServed_example : IsServed "acme" world 1
unfolding resolve_tenant_id read_slug write_slug look_up get_by_slug tenant_session bind_rls
    case_option ◌>>=◌
resolve_tenant_id-IsServed_example = resolve_tenant_id-IsServed toy "acme" world 1 refl refl refl
