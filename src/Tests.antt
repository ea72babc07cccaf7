-- ===== src/Tests.antt =====
-- Runs of the program on a simulated system, and each theorem at a concrete input.
pub mod Fixtures
pub mod Controllers
pub mod Choices
pub mod Daemons
pub mod Runs
pub mod Services
pub mod Machines
pub mod SingleService
pub mod OtherControllers
pub mod Example
