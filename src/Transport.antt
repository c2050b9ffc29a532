-- ===== src/Transport.antt =====
-- internal/transport/http: the handlers of the /holdings endpoints.
pub mod Holdings
pub mod Rejected
