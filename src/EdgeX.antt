-- ===== src/EdgeX.antt =====
-- pkg/clients/edgex-foundry/util.go: the objects of the edge platform, and their translation to
-- and from the custom resources.
pub mod Dto
pub mod Names
pub mod Devices
pub mod Services
pub mod Profiles
pub mod Http
pub mod DeviceClient
pub mod ServiceClient
pub mod ProfileClient
