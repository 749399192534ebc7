-- ===== src/Routing.antt =====
-- app/routing/: the routing configuration, the registries built from it, and the routing service.
pub mod Distinct
pub mod Config
pub mod ModelRegistry
pub mod BackendRegistry
pub mod Router
