-- ===== src/Api.antt =====
-- The custom resources of apis/device.openyurt.io/v1alpha1 (device_types.go, deviceservice_types.go,
-- deviceprofile_types.go, edgexobject.go): Device, DeviceService and DeviceProfile, with the part
-- of the Kubernetes object metadata that the controller reads or writes.
mod Meta
mod Devices
mod DeviceServices
mod DeviceProfiles
pub mod DeepCopy
pub use Meta.*
pub use Devices.*
pub use DeviceServices.*
pub use DeviceProfiles.*
