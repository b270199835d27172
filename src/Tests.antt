-- ===== src/Tests.antt =====
-- Runs of the development on concrete input.
mod Sbf
mod Devices
mod Nmea
mod Memory
mod Mosaic
mod Ntrip
mod Leveler
mod Usb
mod Web
mod Map
mod Volume
mod Logger
mod Radio
mod Panel
mod Forms
mod Admin
mod Screen
mod Console
mod Field
