-- ===== src/Fs.antt =====
-- fs: the file system on top of the protocol.
pub mod HandleMap
pub mod FileLock
pub mod Cache
pub mod Files
