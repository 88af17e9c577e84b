-- ===== src/Events.antt =====
-- app/core/events and app/core/audit: the events of the services, the bus that hands them to their
-- subscribers, and the consumer that writes the audit log.
mod Types
pub mod Bus
mod Audit
pub mod Dispatch
unfoldable pub use Types.*
unfoldable pub use Audit.*
