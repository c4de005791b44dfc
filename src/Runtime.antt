-- ===== src/Runtime.antt =====
-- The runtime: the context, the router and the application of runtime/.
pub mod Context
pub mod Router
pub mod Updates
pub mod Application
pub mod Accounted
pub mod Nonces
