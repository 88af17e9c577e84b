-- ===== src/Api.antt =====
-- app/api/router.py and the routers of the modules: the endpoints, their guards and their handlers.
mod Routes
mod Endpoints
pub mod Secrets
pub mod Logout
pub mod Isolation
pub mod Permissions
pub mod Authorization
pub mod Entitlement
pub use Routes.*
unfoldable pub use Endpoints.*
