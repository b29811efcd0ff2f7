-- ===== src/Boot.antt =====
-- The boot helpers: Silicon/Apple/AppleSiliconPkg/Drivers/WindowsAutoBootDxe, which starts the
-- installed Windows loader from internal storage, and
-- Silicon/Apple/AppleSiliconPkg/Application/BootLaunchApp, which starts an image with the service
-- tables hooked.
pub mod AutoBoot
pub mod Tidy
pub mod Starts
pub mod Notify
pub mod Attempts
pub mod Exhausts
pub mod Hooks
pub mod HookLaws
pub mod Unhooked
pub mod Launch
pub mod Launched
pub mod LaunchTables
pub mod Trace
pub mod Lines
pub mod Traced
mod Tests
