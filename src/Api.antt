-- ===== src/Api.antt =====
-- vibescan-ui/src/api.ts: the client of the v2 read API. `Types` has the wire format, `Url` the
-- resolution of paths, `Query` the search request, `Client` one request and its errors, `Cache` the
-- short-lived cache of `api.stats`.
pub mod Types
pub mod Threat
pub mod Url
pub mod Query
pub mod Client
pub mod Endpoints
pub mod Cache
