-- ===== src/Transport.antt =====
-- Transport/messages: the message header and its encoding.
pub mod Header
pub mod Wire
pub mod Codes
pub mod Json
pub mod Content
pub mod Security
pub mod Signing
