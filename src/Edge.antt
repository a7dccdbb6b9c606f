-- ===== src/Edge.antt =====
-- internal/edge: the public ingress.
pub mod Hosts
pub mod Registry
pub mod Streams
pub mod Admission
pub mod Control
pub mod Requests
pub mod Framing
pub mod Traffic
