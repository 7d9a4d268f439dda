-- ===== src/Settings.antt =====
-- The stored settings: src/DebugAdapterClient/definitions.cpp, and the files of the projects.
pub mod Xml
pub mod Records
pub mod Reading
pub mod Back
pub mod Formats
pub mod Files
pub mod Lost
