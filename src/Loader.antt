-- ===== src/Loader.antt =====
-- capdl-loader-app/src/main.c, a module to each part of it.
pub mod Slots
pub mod Lookup
pub mod Untyped
pub mod Bootinfo
pub mod Device
pub mod Create
pub mod Caps
pub mod Irq
pub mod Tcb
pub mod Vspace
pub mod Cspace
pub mod Registers
pub mod Frames
pub mod System
pub mod Phases
