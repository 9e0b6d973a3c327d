-- ===== src/Config.antt =====
-- The configuration of an overlay: `parseConfig`, `checkOverlayValidity` and `get` of Core/instance.js,
-- and `checkOverlay` of Core/peer.js. Elements has the file, Values the settings that it gives, and
-- Overlay the loading; Settings and Loaded are about the last two.
pub mod Elements
pub mod Values
pub mod Overlay
pub mod Settings
pub mod Loaded
