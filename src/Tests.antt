-- ===== src/Tests.antt =====
-- Concrete runs: the theorems of the other modules at a small overlay.
mod Buffer
mod Data
mod Ring
mod Tables
mod Messages
mod Runs
mod Sealed
mod Events
mod Start
mod Offers
mod Origins
