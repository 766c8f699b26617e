-- ===== src/Api/DeepCopy/Parts.antt =====
-- The copies by `DeepCopy` of the parts of the resources.
use yurt_device_controller.Prelude.{ℕ, Option, List}
use yurt_device_controller.Prelude.Memory.{
  Ref, Alloc, IsDeep, view_ref, view_entries, ref_addresses, entries_addresses, no_addresses,
}
use yurt_device_controller.Prelude.Memory.Deep.{IsDeep-pure, IsDeep-copy_object}
use yurt_device_controller.Api.DeepCopy.Machinery.{Foreign, Machinery, IsCopying}
use yurt_device_controller.Api.DeepCopy.Devices.{
  copy_desired_property_into, copy_desired_property, copy_actual_property_into,
  copy_actual_property, copy_protocol_properties, copy_device_spec, copy_device_status,
}
use yurt_device_controller.Api.DeepCopy.Devices.Views as DeviceViews
use yurt_device_controller.Api.DeepCopy.Devices.Laws as DeviceLaws
use yurt_device_controller.Api.DeepCopy.Services.{copy_service_spec, copy_service_status}
use yurt_device_controller.Api.DeepCopy.Services.Views as ServiceViews
use yurt_device_controller.Api.DeepCopy.Services.Laws as ServiceLaws
use yurt_device_controller.Api.DeepCopy.Profiles.{
  copy_resource_properties_into, copy_resource_properties, copy_resource, copy_operation,
  copy_command, copy_profile_spec, copy_profile_status_into, copy_profile_status,
}
use yurt_device_controller.Api.DeepCopy.Profiles.Views as ProfileViews
use yurt_device_controller.Api.DeepCopy.Profiles.Laws as ProfileLaws

-- A copy by `DeepCopy` through a pointer, nil included, of a value without references.
abbrev IsDeepPlain : {A : Type 0} → (Ref A → Alloc (Ref A)) → Type 0
IsDeepPlain copy = IsDeep copy (view_ref λ a. a) (ref_addresses no_addresses)

abbrev IsDeepBehind : {A C : Type 0} → (Ref A → Alloc (Ref A)) → (A → C) → (A → List ℕ) → Type 0
IsDeepBehind {A} {C} copy view addresses =
    IsDeep {C = Option C} copy (view_ref view) (ref_addresses addresses)

pub record PartsAreDeep {X Y : Foreign} (lib : Machinery X Y) : Type 0 where
  pub device_specs :
      IsDeepBehind copy_device_spec DeviceViews.read_device_spec DeviceViews.device_spec_addresses
  pub device_statuses :
      IsDeepBehind
        (copy_device_status lib)
        (DeviceViews.read_device_status lib)
        (DeviceViews.device_status_addresses lib)
  pub service_specs :
      IsDeepBehind copy_service_spec ServiceViews.read_service_spec
        ServiceViews.service_spec_addresses
  pub service_statuses :
      IsDeepBehind
        (copy_service_status lib)
        (ServiceViews.read_service_status lib)
        (ServiceViews.service_status_addresses lib)
  pub profile_specs :
      IsDeepBehind copy_profile_spec ProfileViews.read_profile_spec
        ProfileViews.profile_spec_addresses
  pub profile_statuses : IsDeepPlain copy_profile_status
  pub commands : IsDeepBehind copy_command ProfileViews.read_command ProfileViews.command_addresses
  pub operations :
      IsDeepBehind copy_operation ProfileViews.read_operation ProfileViews.operation_addresses
  pub resources :
      IsDeepBehind copy_resource ProfileViews.read_resource ProfileViews.resource_addresses
  pub resource_properties : IsDeepPlain copy_resource_properties
  pub desired_properties : IsDeepPlain copy_desired_property
  pub actual_properties : IsDeepPlain copy_actual_property
  pub protocol_properties :
      IsDeep copy_protocol_properties
        (view_ref (view_entries λ t. t))
        (ref_addresses (entries_addresses no_addresses))

module _ {X Y : Foreign} {lib : Machinery X Y} (lawful : IsCopying lib) where
  -- Where the copies of the libraries are deep, so is the copy by DeepCopy of the specification
  -- and the status of each kind of resource, of a command, an operation, a resource and its
  -- properties in a profile, of a desired and an actual property, and of a protocol's properties:
  -- it reads as the original does at all depths, is nil exactly for nil, and leads only to
  -- addresses allocated while copying.
  pub part_copies_are_deep : PartsAreDeep lib
  unfolding copy_device_spec copy_device_status copy_service_spec copy_service_status
      copy_profile_spec copy_profile_status copy_profile_status_into copy_command copy_operation
      copy_resource copy_resource_properties copy_resource_properties_into copy_desired_property
      copy_desired_property_into copy_actual_property copy_actual_property_into
  part_copies_are_deep = record {
    device_specs = IsDeep-copy_object DeviceLaws.copy_device_spec_into-IsDeep;
    device_statuses = IsDeep-copy_object (DeviceLaws.copy_device_status_into-IsDeep lawful);
    service_specs = IsDeep-copy_object ServiceLaws.copy_service_spec_into-IsDeep;
    service_statuses = IsDeep-copy_object (ServiceLaws.copy_service_status_into-IsDeep lawful);
    profile_specs = IsDeep-copy_object ProfileLaws.copy_profile_spec_into-IsDeep;
    profile_statuses = IsDeep-copy_object (IsDeep-pure λ s. s);
    commands = IsDeep-copy_object ProfileLaws.copy_command_into-IsDeep;
    operations = IsDeep-copy_object ProfileLaws.copy_operation_into-IsDeep;
    resources = IsDeep-copy_object ProfileLaws.copy_resource_into-IsDeep;
    resource_properties = IsDeep-copy_object (IsDeep-pure λ p. p);
    desired_properties = IsDeep-copy_object (IsDeep-pure λ p. p);
    actual_properties = IsDeep-copy_object (IsDeep-pure λ p. p);
    protocol_properties = DeviceLaws.copy_protocol_properties-IsDeep;
  }
