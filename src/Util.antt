-- ===== src/Util.antt =====
-- irods/util: the helpers of the client.
pub mod Encryption
pub mod Scramble
pub mod Path
