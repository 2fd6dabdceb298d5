-- ===== src/Loader/Phases.antt =====
-- The effects of the phases of `init_system`, one module for each group of phases.
pub mod Basics
pub mod Creation
pub mod Spaces
pub mod Threads
pub mod Order
