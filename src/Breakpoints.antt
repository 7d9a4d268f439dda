-- ===== src/Breakpoints.antt =====
-- The breakpoints of the debugger plugin: src/DebugAdapterClient/DAP_Breakpoints.cpp and the class
-- DAPBreakpoint of src/DebugAdapterClient/definitions.h.
pub mod State
pub mod FileMap
pub mod Entries
pub mod Containers
pub mod Update
pub mod Actions
pub mod Index
pub mod Indexed
pub mod Kept
pub mod Shift
pub mod Events
pub mod Deleted
pub mod Told
pub mod Added
pub mod Run
pub mod Started
pub mod Moved
pub mod Shifted
