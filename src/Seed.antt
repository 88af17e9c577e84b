-- ===== src/Seed.antt =====
-- scripts/seed.py: the modules and the permissions that the database begins with, and the permissions of each role.
pub mod Catalog
pub mod Script
pub mod Modules
pub mod Permissions
pub mod Audience
pub mod Grants
pub mod Tenants
