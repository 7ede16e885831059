-- ===== src/Types.antt =====
-- irods/types: the value types of the client.
pub mod Negotiation
