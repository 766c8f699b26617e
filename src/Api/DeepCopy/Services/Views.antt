-- ===== src/Api/DeepCopy/Services/Views.antt =====
-- What a device service in memory reads as, and the addresses that it leads to.
use yurt_device_controller.Prelude.{ℕ, Option, List, map, ◌++◌}
use yurt_device_controller.Prelude.Memory.{
  Ref, view_ref, ref_addresses, list_addresses, no_addresses,
}
use yurt_device_controller.Api.DeepCopy.Machinery.{Foreign, Machinery}
use yurt_device_controller.Api.DeepCopy.Services.{
  DeviceServiceSpecStruct, DeviceServiceStatusStruct, DeviceServiceStruct, DeviceServiceListStruct,
}

abbrev pub read_service_spec : DeviceServiceSpecStruct Ref → DeviceServiceSpecStruct Option
read_service_spec s = record {
  base_address = s.base_address;
  description = s.description;
  labels = view_ref (λ l. l) s.labels;
  admin_state = s.admin_state;
  managed = s.managed;
  node_pool = s.node_pool;
}

abbrev pub service_spec_addresses : DeviceServiceSpecStruct Ref → List ℕ
service_spec_addresses s = ref_addresses no_addresses s.labels

module _ {X Y : Foreign} (lib : Machinery X Y) where
  abbrev pub read_service_status :
      DeviceServiceStatusStruct Ref X → DeviceServiceStatusStruct Option Y
  read_service_status s = record {
    synced = s.synced;
    edge_id = s.edge_id;
    last_connected = s.last_connected;
    last_reported = s.last_reported;
    admin_state = s.admin_state;
    conditions = view_ref (map lib.view_condition) s.conditions;
  }

  abbrev pub service_status_addresses : DeviceServiceStatusStruct Ref X → List ℕ
  service_status_addresses s = ref_addresses (list_addresses lib.condition_addresses) s.conditions

  abbrev pub read_service : DeviceServiceStruct Ref X → DeviceServiceStruct Option Y
  read_service s = record {
    type_meta = s.type_meta;
    object_meta = lib.view_object_meta s.object_meta;
    spec = read_service_spec s.spec;
    status = read_service_status s.status;
  }

  abbrev pub service_addresses : DeviceServiceStruct Ref X → List ℕ
  service_addresses s =
      lib.object_meta_addresses s.object_meta
      ++ (service_spec_addresses s.spec ++ service_status_addresses s.status)

  abbrev pub read_service_list : DeviceServiceListStruct Ref X → DeviceServiceListStruct Option Y
  read_service_list l = record {
    type_meta = l.type_meta;
    list_meta = lib.view_list_meta l.list_meta;
    items = view_ref (map read_service) l.items;
  }

  abbrev pub service_list_addresses : DeviceServiceListStruct Ref X → List ℕ
  service_list_addresses l =
      lib.list_meta_addresses l.list_meta
      ++ ref_addresses (list_addresses service_addresses) l.items
