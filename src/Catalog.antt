-- ===== src/Catalog.antt =====
-- discstakka/catalog/: the catalogue of discs.
pub mod Db
pub mod Valid
pub mod Writes
pub mod Slots
pub mod Edit
pub mod BySlot
pub mod Listing
pub mod Stats
pub mod Recent
pub mod Taxonomy
pub mod Art
