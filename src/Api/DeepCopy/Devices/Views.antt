-- ===== src/Api/DeepCopy/Devices/Views.antt =====
-- What a device in memory reads as, and the addresses that it leads to.
use yurt_device_controller.Prelude.{ℕ, Option, List, map, ◌++◌}
use yurt_device_controller.Prelude.Memory.{
  Ref, view_ref, view_entries, ref_addresses, list_addresses, entries_addresses, no_addresses,
}
use yurt_device_controller.Api.DeepCopy.Machinery.{Foreign, Machinery}
use yurt_device_controller.Api.DeepCopy.Devices.{
  DeviceSpecStruct, DeviceStatusStruct, DeviceStruct, DeviceListStruct,
}

abbrev pub read_device_spec : DeviceSpecStruct Ref → DeviceSpecStruct Option
read_device_spec s = record {
  description = s.description;
  admin_state = s.admin_state;
  operating_state = s.operating_state;
  protocols = view_ref (view_entries (view_ref (view_entries λ t. t))) s.protocols;
  labels = view_ref (λ l. l) s.labels;
  location = s.location;
  service = s.service;
  profile = s.profile;
  notify = s.notify;
  managed = s.managed;
  node_pool = s.node_pool;
  device_properties = view_ref (view_entries λ p. p) s.device_properties;
}

abbrev pub device_spec_addresses : DeviceSpecStruct Ref → List ℕ
device_spec_addresses s =
    ref_addresses (entries_addresses (ref_addresses (entries_addresses no_addresses))) s.protocols
    ++ (ref_addresses no_addresses s.labels
        ++ ref_addresses (entries_addresses no_addresses) s.device_properties)

module _ {X Y : Foreign} (lib : Machinery X Y) where
  abbrev pub read_device_status : DeviceStatusStruct Ref X → DeviceStatusStruct Option Y
  read_device_status s = record {
    last_connected = s.last_connected;
    last_reported = s.last_reported;
    synced = s.synced;
    device_properties = view_ref (view_entries λ p. p) s.device_properties;
    edge_id = s.edge_id;
    admin_state = s.admin_state;
    operating_state = s.operating_state;
    conditions = view_ref (map lib.view_condition) s.conditions;
  }

  abbrev pub device_status_addresses : DeviceStatusStruct Ref X → List ℕ
  device_status_addresses s =
      ref_addresses (entries_addresses no_addresses) s.device_properties
      ++ ref_addresses (list_addresses lib.condition_addresses) s.conditions

  abbrev pub read_device : DeviceStruct Ref X → DeviceStruct Option Y
  read_device d = record {
    type_meta = d.type_meta;
    object_meta = lib.view_object_meta d.object_meta;
    spec = read_device_spec d.spec;
    status = read_device_status d.status;
  }

  abbrev pub device_addresses : DeviceStruct Ref X → List ℕ
  device_addresses d =
      lib.object_meta_addresses d.object_meta
      ++ (device_spec_addresses d.spec ++ device_status_addresses d.status)

  abbrev pub read_device_list : DeviceListStruct Ref X → DeviceListStruct Option Y
  read_device_list l = record {
    type_meta = l.type_meta;
    list_meta = lib.view_list_meta l.list_meta;
    items = view_ref (map read_device) l.items;
  }

  abbrev pub device_list_addresses : DeviceListStruct Ref X → List ℕ
  device_list_addresses l =
      lib.list_meta_addresses l.list_meta ++ ref_addresses (list_addresses device_addresses) l.items
