-- ===== src/Examples.antt =====
-- The theorems at concrete inputs.
mod Values
mod Settings
mod Disks
mod Services
mod Databases
mod Patches
mod Supervisors
mod Servers
mod Logins
mod Reports
mod Updates
mod Trays
mod Uris
mod Consoles
mod Sessions
mod Browsing
mod Events
