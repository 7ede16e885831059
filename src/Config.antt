-- ===== src/Config.antt =====
-- config: the configuration of icommands.
pub mod Obfuscation
