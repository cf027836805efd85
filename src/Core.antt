-- ===== src/Core.antt =====
-- core/src: the types and parsers that both runtimes share, a module for each source file.
pub mod Auth
pub mod Cache
pub mod Ojp
pub mod Geo
pub mod Stations
pub mod Favourites
pub mod Reqlog
pub mod Error
pub mod Formation
