-- ===== src/Controllers.antt =====
-- pkg/controllers: the reconcilers, which act on one object at a time, and the syncers, which
-- compare both platforms.
pub mod Jobs
pub mod Loops
pub mod Kube
pub mod Session
pub mod Devices
pub mod DeviceServices
pub mod DeviceProfiles
pub mod Predicate
pub mod Differences
pub mod DeviceServiceSyncer
pub mod DeviceProfileSyncer
pub mod DeviceSyncer
