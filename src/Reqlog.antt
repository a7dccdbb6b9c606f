-- ===== src/Reqlog.antt =====
-- internal/reqlog: the log of requests, and its way to the control plane.
pub mod Shipper
pub mod Sink
pub mod Tail
