-- ===== src/Api/DeepCopy.antt =====
-- The copies of apis/device.openyurt.io/v1alpha1/zz_generated.deepcopy.go, by which the controllers
-- and syncers change an object of the shared caches without writing to it. The resources are
-- modelled once more, as structs whose maps and slices stand behind references: a parameter `R`
-- is `Ref` for an object in memory, and `Option` for what one reads there, nil or the contents.
pub mod Machinery
pub mod Devices
pub mod Services
pub mod Profiles
pub mod Objects
pub mod Parts
