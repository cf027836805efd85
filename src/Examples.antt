-- ===== src/Examples.antt =====
-- Runs of the definitions, and the theorems at concrete inputs.
mod Auth
mod Board
mod Nearby
mod Train
mod Pod
mod Replicas
mod Wire
mod Routes
mod Memcached
mod Protocol
mod Feed
mod Start
mod Handlers
mod Edge
