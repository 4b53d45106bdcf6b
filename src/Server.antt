-- ===== src/Server.antt =====
-- src/core/cccam3_server.c: what the server decides about a connection before and besides the
-- messages themselves. The children model its filter of addresses, its guard against guessed
-- passwords and its limit of ECMs per second.
pub mod Accept
pub mod IpFilter
pub mod LoginGuard
pub mod RateLimit
pub mod Requests
pub mod Login
