-- ===== src/Presentation.antt =====
-- presentation: what reaches the services from the outside.
pub mod Http
pub mod Grpc
pub mod Worker
pub mod Events
