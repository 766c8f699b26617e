-- ===== src/Api/DeepCopy/Profiles/Views.antt =====
-- What a device profile in memory reads as, and the addresses that it leads to.
use yurt_device_controller.Prelude.{ℕ, Option, List, map, ◌++◌}
use yurt_device_controller.Prelude.Memory.{
  Ref, view_ref, view_entries, ref_addresses, list_addresses, entries_addresses, no_addresses,
}
use yurt_device_controller.Api.DeepCopy.Machinery.{Foreign, Machinery}
use yurt_device_controller.Api.DeepCopy.Profiles.{
  DeviceResourceStruct, ResourceOperationStruct, DeviceCommandStruct, DeviceProfileSpecStruct,
  DeviceProfileStruct, DeviceProfileListStruct,
}

abbrev pub read_resource : DeviceResourceStruct Ref → DeviceResourceStruct Option
read_resource r = record {
  description = r.description;
  name = r.name;
  tag = r.tag;
  is_hidden = r.is_hidden;
  properties = r.properties;
  attributes = view_ref (view_entries λ t. t) r.attributes;
}

abbrev pub resource_addresses : DeviceResourceStruct Ref → List ℕ
resource_addresses r = ref_addresses (entries_addresses no_addresses) r.attributes

abbrev pub read_operation : ResourceOperationStruct Ref → ResourceOperationStruct Option
read_operation o = record {
  device_resource = o.device_resource;
  mappings = view_ref (view_entries λ t. t) o.mappings;
  default_value = o.default_value;
}

abbrev pub operation_addresses : ResourceOperationStruct Ref → List ℕ
operation_addresses o = ref_addresses (entries_addresses no_addresses) o.mappings

abbrev pub read_command : DeviceCommandStruct Ref → DeviceCommandStruct Option
read_command c = record {
  name = c.name;
  is_hidden = c.is_hidden;
  read_write = c.read_write;
  resource_operations = view_ref (map read_operation) c.resource_operations;
}

abbrev pub command_addresses : DeviceCommandStruct Ref → List ℕ
command_addresses c = ref_addresses (list_addresses operation_addresses) c.resource_operations

abbrev pub read_profile_spec : DeviceProfileSpecStruct Ref → DeviceProfileSpecStruct Option
read_profile_spec s = record {
  node_pool = s.node_pool;
  description = s.description;
  manufacturer = s.manufacturer;
  model = s.model;
  labels = view_ref (λ l. l) s.labels;
  device_resources = view_ref (map read_resource) s.device_resources;
  device_commands = view_ref (map read_command) s.device_commands;
}

abbrev pub profile_spec_addresses : DeviceProfileSpecStruct Ref → List ℕ
profile_spec_addresses s =
    ref_addresses no_addresses s.labels
    ++ (ref_addresses (list_addresses resource_addresses) s.device_resources
        ++ ref_addresses (list_addresses command_addresses) s.device_commands)

module _ {X Y : Foreign} (lib : Machinery X Y) where
  abbrev pub read_profile : DeviceProfileStruct Ref X → DeviceProfileStruct Option Y
  read_profile dp = record {
    type_meta = dp.type_meta;
    object_meta = lib.view_object_meta dp.object_meta;
    spec = read_profile_spec dp.spec;
    status = dp.status;
  }

  abbrev pub profile_addresses : DeviceProfileStruct Ref X → List ℕ
  profile_addresses dp = lib.object_meta_addresses dp.object_meta ++ profile_spec_addresses dp.spec

  abbrev pub read_profile_list : DeviceProfileListStruct Ref X → DeviceProfileListStruct Option Y
  read_profile_list l = record {
    type_meta = l.type_meta;
    list_meta = lib.view_list_meta l.list_meta;
    items = view_ref (map read_profile) l.items;
  }

  abbrev pub profile_list_addresses : DeviceProfileListStruct Ref X → List ℕ
  profile_list_addresses l =
      lib.list_meta_addresses l.list_meta
      ++ ref_addresses (list_addresses profile_addresses) l.items
