-- ===== src/Server.antt =====
-- server/src: the native server, a module for each source file.
pub mod Cache
pub mod Fetch
pub mod Memcached
pub mod Upstream
pub mod Stations
pub mod Routes
pub mod Middleware
pub mod Config
