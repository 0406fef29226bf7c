-- ===== src/Server.antt =====
-- server/: the response cache of the public server and the middleware of both servers.
pub mod Cache
pub mod RateLimit
pub mod Hub
pub mod Api
