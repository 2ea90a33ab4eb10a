-- ===== src/Prelude.antt =====
-- The names that the other modules share: the libraries', passed on, and those of the children.
pub mod Tests
pub mod Int
pub mod Lists
pub mod Text
pub mod TextLaws
pub mod Trimming
pub mod Maps
pub mod Counts
pub mod Result
pub mod Options
pub mod Clock
