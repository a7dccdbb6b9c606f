-- ===== src/Tunnel.antt =====
-- internal/tunnel: sessions and streams, over QUIC and over yamux.
pub mod Session
pub mod Yamux
pub mod Quic
