-- ===== src/Tests.antt =====
-- Runs of the program's parts on concrete inputs.
mod Packets
mod Profiles
mod Texts
mod States
mod Commands
mod Links
mod Paths
mod Ondemand
mod Engine
