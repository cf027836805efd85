-- ===== src/Lib.antt =====
-- traintime-api serves Swiss train departures, nearby stations and train formations over the OJP and
-- formation interfaces of opentransportdata.swiss. The crate core holds the parsers and rules that
-- both runtimes share; server is the native Axum server with a cache for each pod, an optional shared
-- Memcached and one upstream call for a key at a time; src is the Cloudflare Worker with the same
-- routes over the edge cache.
--
-- Files, and the code that they model:
--   Common.antt and below: numbers, lists, texts, maps and sorting of the standard library.
--   Core/Auth.antt: core/src/auth.rs (ApiKeys::parse, matched, label, constant_time_eq).
--   Core/Cache.antt: core/src/cache.rs (classify).
--   Core/Ojp.antt, Core/Ojp/Journeys.antt: core/src/ojp.rs (FlatDeparture, keep_latest_per_journey).
--   Core/Ojp/Request.antt, Patterns, Xml and Events beside it: the request, the compiled patterns, and
--     the reading of a response in core/src/ojp.rs (parse_stop_events).
--   Core/Favourites.antt: core/src/favourites.rs.
--   Core/Geo.antt, Core/Stations.antt: core/src/geo.rs and core/src/stations.rs.
--   Core/Formation.antt, its children Scan, Wagons and Response, Core/Error.antt:
--     core/src/formation.rs and core/src/error.rs.
--   Core/Reqlog.antt: core/src/reqlog.rs.
--   Server/Cache.antt, Server/Cache/Shared.antt, Server/Cache/Overflow.antt: server/src/cache.rs (the
--     entries of a pod; lookup and store in front of the shared cache; the lock of the entries);
--     Server/Cache/Replicas.antt: the pods in front of one Memcached.
--   Server/Fetch.antt: server/src/fetch.rs; the files below it follow its calls.
--   Server/Routes.antt, its children Nearby and Formation: server/src/routes.
--   Server/Memcached.antt: the guards, the skip window and the pool of server/src/memcached.rs;
--     Server/Memcached/Protocol.antt: its get and set over a connection; Server/Memcached/Fake.antt: the
--     Memcached of its tests; Server/Memcached/Calls.antt: the calls of a client over it;
--     Server/Memcached/Pool.antt: its connections while calls interleave;
--     Server/Memcached/Wire.antt: the same with the bytes that are not read yet.
--   Server/Upstream.antt: server/src/ojp.rs and server/src/formation.rs.
--   Server/Middleware.antt, Server/Config.antt: server/src/main.rs (auth; run and the router).
--   Server/Stations.antt: server/src/stations.rs.
--   Worker/Cache.antt, Worker/Routes.antt and its children, Worker/Entry.antt, Worker/Router.antt:
--     src/cache.rs, src/routes and src/lib.rs of the Worker.
--   Worker/Upstream.antt: src/upstream.rs, src/ojp.rs and src/formation.rs.
--   Worker/Agreement.antt and below: the two runtimes side by side, Pods.antt with the server's calls
--     run by a pod.
--   Http.antt: requests, responses, queries and the JSON library as a parameter.
--   Examples.antt and below: runs and concrete inputs.
--
-- Text is the list of its code points; a byte length or a byte comparison goes through the UTF-8
-- encoding of Common/Utf8.antt. An i64 is an integer; u64 and usize are natural numbers, with the
-- bound of the type where a number is parsed. f64 is the parameter Common/Float.antt. Parameters too
-- are the regular expression that reads a vehicle token, the regex library that reads the XML, the
-- JSON library, the HTTP clients and date parsers of both runtimes, D1, the Cache API, Axum's get and the
-- bindings of the Worker. Time is an argument: an Instant is a number of nanoseconds, with an upper bound in
-- Server/Cache/Overflow.antt only; a Unix time is a number of milliseconds. A Memcached connection is
-- the bytes that the peer sends and the bytes written to it; a command that takes longer than its
-- 50 ms is an error of the command.
--
-- The calls of Inflight::cached are tasks of a pod. A step runs one task between two points where
-- others may run, and an event is the arrival of a request, a step, or the drop of a call's future; a
-- run is a list of events in any order. Every loop is recursion on a list. Fuel is used in the
-- printing of numbers, where one more than the number is enough, and in the removal of a repeated
-- prefix, where the length of the text is enough, since each round removes a character.
--
-- Not modelled: HTTP and TLS clients, sockets, the Axum and Worker frameworks, D1, the console, the
-- listener and the shutdown signal of the server, and the monitor, scripts, migrations and data files.
-- None of them is Rust code of the repository but the signal, which only waits for the system.
pub mod Common
pub mod Core
pub mod Http
pub mod Server
pub mod Worker
mod Examples
