-- ===== src/Server.antt =====
-- The relayer's server: server/rate-limit.ts, server/relayer.ts, and of server/index.ts the route that
-- forwards calls to the node.
pub mod RateLimit
pub mod Relayer
pub mod Rpc
