-- ===== src/Session.antt =====
-- irods/session: the pool of connections and the session that shares them.
pub mod Pool
pub mod Sharing
pub mod Calls
