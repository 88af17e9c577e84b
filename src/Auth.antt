-- ===== src/Auth.antt =====
-- app/modules/auth: identity, tokens and password reset.
mod Schemas
mod Repositories
mod Service
mod Resets
pub mod Dependencies
pub mod Rules
pub mod Rotation
pub mod Revocation
pub mod SingleUse
pub mod LogoutFinal
pub mod Registration
pub mod RoundTrip
pub mod ResetOnce
pub mod ResetRevokes
pub use Schemas.*
unfoldable pub use Repositories.*
unfoldable pub use Service.*
unfoldable pub use Resets.*
