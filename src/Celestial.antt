-- ===== src/Celestial.antt =====
-- The celestial names of branches (apps/web/src/core/lib/celestial.ts).
pub mod Bodies
pub mod Stars
pub mod Planets
pub mod Galaxies
pub mod Branches
pub mod Free
pub mod Visits
mod Examples
