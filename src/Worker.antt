-- ===== src/Worker.antt =====
-- The crate at the repository's root (src/): the Cloudflare Worker.
pub mod Cache
pub mod Upstream
pub mod Routes
pub mod Entry
pub mod Router
pub mod Agreement
