-- ===== src/Tests.antt =====
-- Runs of the models on concrete inputs.
mod Backlight
mod Daemon
mod Host
mod Start
mod Filters
mod Firmware
mod Devices
mod Powerlimit
mod Aecram
mod Amplifier
mod Sessions
mod Hooks
