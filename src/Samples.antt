-- ===== src/Samples.antt =====
-- Concrete inputs: the tests of the definitions and the instances of the theorems.
pub mod Documents
pub mod Built
pub mod Machines
pub mod Installs
pub mod Archives
pub mod Stores
pub mod Profiles
pub mod Peers
