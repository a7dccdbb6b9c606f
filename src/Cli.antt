-- ===== src/Cli.antt =====
-- cmd/beamd: what the commands of the client decide before they connect.
pub mod Resolve
