-- ===== src/Lib.antt =====
-- A model of the LMS backend, a multi-tenant FastAPI service on PostgreSQL and Redis, and the theorems
-- that make its core correct.
--
-- The parts of the program and the files that model them:
-- - Base: the conditional, equality tests, the methods of `str` that the program calls, and lists over
--   native numbers, and whole numbers with a sign.
-- - Shared (app/shared): Errors is the hierarchy of `AppError` with the responses of the handlers, Page
--   the pagination schemas.
-- - Models: the rows of the mapped classes (app/core/tenancy/models.py, app/core/licensing/models.py,
--   app/modules/*/models.py, app/core/audit/models.py).
-- - Store: `RequestContext` of app/core/context.py, the tables, Redis and the other state of the process
--   as one record `World`, and the actions of the services, `World → Result A × World`: the state that
--   was reached comes back after a raise too. Store/Relations has one rule for each way to build an
--   action, so that a relation between the state before and after is proved of a service by walking
--   through it once.
-- - Database (app/core/database, alembic/versions/0002_row_level_security.py): Policy is the predicate of
--   the row-level policies and `_bind_rls`; Repository the methods of `BaseRepository` and
--   `TenantRepository`, with what the statements do in the database: a SELECT sees the rows that the
--   policy admits, an INSERT or an UPDATE fails on a unique constraint or on the policy; Constraints the
--   unique constraints of the mapped classes; Model the interface of a mapped class, which Database/Tables
--   fills for the ten classes; Sessions `get_db` and `tenant_session`.
-- - Config (app/core/config.py): the computed settings.
-- - Startup (app/main.py, app/core/cache.py): the check before the program starts, and the Redis client.
-- - External: the hasher, the JWT library, Redis, and the source of random tokens, as a record of
--   functions and laws that the services take.
-- - Events (app/core/events, app/core/audit, events.py of each module): the bus, and the consumer that
--   writes the audit log. Each service publishes after its writes, as in the program.
-- - Security (app/core/security): password hashes and tokens.
-- - Auth (app/modules/auth): Repositories, Service (`register`, `authenticate`, `login`, `refresh`,
--   `logout`), Resets (password reset, with the store that stands in for Redis), Dependencies
--   (`get_current_user`, `require_permission`, `require_role`).
-- - Licensing (app/core/licensing): `LicensingService` and the guard of the mounted routers.
-- - Courses, Learning, Assignments (app/modules): the use-cases of the three services.
-- - Tenancy (app/core/tenancy): tenants, and the resolution of the tenant that a request names.
-- - Admin (app/modules/admin): Service has the use-cases of a tenant's administrators, Tenants those of
--   the platform, each in a session of its own that bypasses row-level security.
-- - Dashboard (app/modules/dashboard): the figures of a user, from the tables of the other modules.
-- - RateLimit (app/core/middleware/rate_limit.py): the fixed-window limiter; Window has the machine that it
--   implements, Steps and Bound the runs of requests in a window.
-- - Api (app/api/router.py, app/modules/*/router.py): the endpoints, their module and permission guards and
--   their handlers, in one transaction each.
-- - Gateway (app/core/middleware/context.py): the middleware that identifies the tenant and the user of a
--   request and sets its context, around an endpoint.
-- - Seed (scripts/seed.py, app/modules/*/permissions.py): the catalogues of permissions and modules, the role
--   matrix, and the seeding of modules, permissions, roles, users and tenants.
-- - Tests: a concrete hasher, token library and Redis, a small database, and each property there.
--
-- How the model reads the program. An id is a number, and `uuid.uuid4()` gives the next one; a point in
-- time is a number of seconds, and a request sees one instant. A table is the list of its rows in the
-- order of insertion. ORDER BY and ILIKE are parameters (`Ordering`, and `apply_search` of the queries).
-- A relationship that the ORM loads with its row is a field of the row. An object that a service changes
-- is written at the point of the change; the program writes it at the flush that follows. Redis is the
-- log of the commands given to it, and what it answers is a parameter with laws for SET, DELETE, INCR,
-- EXPIRE and the passing of time. The
-- handlers of one event run one after another, where `asyncio.gather` interleaves them. A column of
-- cents or hundredths is a number of them, and a `Decimal` quotient a fraction, not rounded; points and
-- prices have a sign, as the columns have it. A `tenant_session` within a request is nested in its
-- transaction here, and independent of it in the program; no handler raises after one has ended. Ids are
-- left out of messages, and columns that no modelled code reads (`updated_at`, `settings`) of rows.
-- Nothing in the model recurses on fuel: every loop of the code runs over a list.
--
-- Not modelled: the request id of the responses, the retry_after of a refusal, and the wiring of the
-- framework with its CORS headers and health endpoints (app/main.py); the migrations but for the policies,
-- which are generated DDL; the sample content of scripts/seed.py and the scripts
-- that write SQL text; and the tests.
pub mod Base
pub mod Shared
pub mod Models
pub mod Store
pub mod Database
pub mod Config
pub mod Startup
pub mod External
pub mod Events
pub mod Security
pub mod Seed
pub mod Auth
pub mod Licensing
pub mod Tenancy
pub mod Courses
pub mod Learning
pub mod Assignments
pub mod Admin
pub mod Dashboard
pub mod RateLimit
pub mod Api
pub mod Gateway
pub mod Tests
