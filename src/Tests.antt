-- ===== src/Tests.antt =====
-- Concrete runs of the model, and the instances of its theorems that show their hypotheses to hold.
pub mod Names
pub mod Routing
pub mod Tokens
pub mod Orders
pub mod Ingress
pub mod Handshakes
pub mod Agents
pub mod Tunnels
pub mod Wires
pub mod Traffic
pub mod Settings
pub mod Registrations
pub mod Shipping
pub mod Sinks
