-- ===== src/Tests.antt =====
-- Runs at concrete inputs.
mod Samples
mod Wire
mod Devices
mod Clients
mod Services
mod Profiles
mod Syncers
mod Steady
mod DeepCopies
mod Commands
mod Storing
mod Jobs
mod DeviceRounds
mod Rounds
mod App
mod Orphans
mod InSync
mod ServicesInSync
mod ProfilesInSync
