-- ===== src/Module.antt =====
-- Modules as values: module/module.go, module/builder.go and module/registry.go.
pub mod Base
pub mod Builder
pub mod Checks
pub mod Built
pub mod Registry
pub mod Layers
