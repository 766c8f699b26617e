-- ===== src/Api/DeepCopy/Objects.antt =====
-- The copies by `DeepCopyObject`, through which the libraries copy an object of any kind.
pub mod Laws
use yurt_device_controller.Prelude.{Option, none, some}
use yurt_device_controller.Prelude.Memory.{Ref, nil, at, Alloc, pure, ◌>>=◌}
use yurt_device_controller.Api.DeepCopy.Machinery.{Foreign, Machinery}
use yurt_device_controller.Api.DeepCopy.Devices.{
  DeviceStruct, DeviceListStruct, copy_device, copy_device_list,
}
use yurt_device_controller.Api.DeepCopy.Services.{
  DeviceServiceStruct, DeviceServiceListStruct, copy_service, copy_service_list,
}
use yurt_device_controller.Api.DeepCopy.Profiles.{
  DeviceProfileStruct, DeviceProfileListStruct, copy_profile, copy_profile_list,
}

-- A value of the interface `runtime.Object` that is not nil: one of the repository's six kinds,
-- with its pointer, which may be nil.
pub data Object (X : Foreign) : Type 0 where
  device : Ref (DeviceStruct Ref X) → Object X
  device_list : Ref (DeviceListStruct Ref X) → Object X
  service : Ref (DeviceServiceStruct Ref X) → Object X
  service_list : Ref (DeviceServiceListStruct Ref X) → Object X
  profile : Ref (DeviceProfileStruct Ref X) → Object X
  profile_list : Ref (DeviceProfileListStruct Ref X) → Object X

-- `if c != nil { return c }; return nil`: the nil interface for a nil pointer.
abbrev pub boxed : {A : Type 0} {X : Foreign} → (Ref A → Object X) → Ref A → Option (Object X)
boxed kind nil = none
boxed kind (at a x) = some (kind (at a x))

module _ {X Y : Foreign} (lib : Machinery X Y) where
  unfoldable pub copy_device_object : Ref (DeviceStruct Ref X) → Alloc (Option (Object X))
  copy_device_object r = do c ← copy_device lib r; pure (boxed device c)

  unfoldable pub copy_device_list_object : Ref (DeviceListStruct Ref X) → Alloc (Option (Object X))
  copy_device_list_object r = do c ← copy_device_list lib r; pure (boxed device_list c)

  unfoldable pub copy_service_object : Ref (DeviceServiceStruct Ref X) → Alloc (Option (Object X))
  copy_service_object r = do c ← copy_service lib r; pure (boxed service c)

  unfoldable pub copy_service_list_object :
      Ref (DeviceServiceListStruct Ref X) → Alloc (Option (Object X))
  copy_service_list_object r = do c ← copy_service_list lib r; pure (boxed service_list c)

  unfoldable pub copy_profile_object : Ref (DeviceProfileStruct Ref X) → Alloc (Option (Object X))
  copy_profile_object r = do c ← copy_profile lib r; pure (boxed profile c)

  unfoldable pub copy_profile_list_object :
      Ref (DeviceProfileListStruct Ref X) → Alloc (Option (Object X))
  copy_profile_list_object r = do c ← copy_profile_list lib r; pure (boxed profile_list c)

  -- The method that a call of `DeepCopyObject` on an interface value runs.
  unfoldable pub copy_of : Object X → Alloc (Option (Object X))
  copy_of (device r) = copy_device_object r
  copy_of (device_list r) = copy_device_list_object r
  copy_of (service r) = copy_service_object r
  copy_of (service_list r) = copy_service_list_object r
  copy_of (profile r) = copy_profile_object r
  copy_of (profile_list r) = copy_profile_list_object r
