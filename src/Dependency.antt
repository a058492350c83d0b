-- ===== src/Dependency.antt =====
-- The dependency manager, ADB/systrace/catapult/dependency_manager/dependency_manager.
pub mod LocalPaths
pub mod Uploader
pub mod Config
pub mod Remote
pub mod Info
pub mod Manager
mod Tests
mod HostTests
