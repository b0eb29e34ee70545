-- ===== src/Brightness.antt =====
-- The brightness daemon: src/brightness_daemon.cpp with src/brightness_utils/.
pub mod Backlight
pub mod Frame
pub mod Privileges
pub mod Sysfs
pub mod Daemon
pub mod Startup
pub mod Life
