-- ===== src/Examples.antt =====
-- Each theorem applied in the small world, where its hypotheses hold.
pub mod Browser
pub mod Credentials
pub mod Operators
pub mod Store
pub mod Whole
pub mod Race
pub mod Host
