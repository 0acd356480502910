-- ===== src/Http.antt =====
-- The HTTP edge: src/adapters/http. A request meets the middleware that resolves its principal
-- (Principal), the guard with what the route declares (access), and, where it is refused, the
-- filters that answer it (Filter); Throttling has the buckets that requests are counted in.
pub mod Declaration
pub mod Guard
pub mod Principal
pub mod Filter
pub mod Edge
pub mod Throttling
