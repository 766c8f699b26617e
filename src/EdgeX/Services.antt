-- ===== src/EdgeX/Services.antt =====
-- Device services between the platforms (pkg/clients/edgex-foundry/util.go).
use yurt_device_controller.Prelude.{List, [], ◌∷◌, none, false}
use yurt_device_controller.Api.{DeviceService}
use yurt_device_controller.EdgeX.Dto.{EdgeXDeviceService, Request}
use yurt_device_controller.EdgeX.Names.{GoText, edgex_object_name, to_kube_name, get_edgex_name}
use yurt_device_controller.EdgeX.Devices.{api_version_v2}

unfoldable pub to_edgex_device_service : DeviceService → EdgeXDeviceService
to_edgex_device_service ds = record {
  id = "";
  name = get_edgex_name ds.metadata;
  description = ds.spec.description;
  last_connected = ds.status.last_connected;
  last_reported = ds.status.last_reported;
  labels = ds.spec.labels;
  admin_state = ds.spec.admin_state;
  base_address = ds.spec.base_address;
}

unfoldable pub to_kube_device_service : GoText → EdgeXDeviceService → DeviceService
to_kube_device_service go ds = record {
  metadata = record {
    name = to_kube_name go ds.name;
    namespace = "default";
    labels = (edgex_object_name, ds.name) ∷ [];
    finalizers = [];
    deletion_timestamp = none;
    resource_version = "";
  };
  spec = record {
    base_address = ds.base_address;
    description = ds.description;
    labels = ds.labels;
    admin_state = ds.admin_state;
    managed = false;
    node_pool = "";
  };
  status = record {
    synced = false;
    edge_id = ds.id;
    last_connected = ds.last_connected;
    last_reported = ds.last_reported;
    admin_state = ds.admin_state;
    conditions = [];
  };
}

-- `makeEdgeXDeviceService`
unfoldable pub make_edgex_device_service : List DeviceService → List (Request EdgeXDeviceService)
make_edgex_device_service [] = []
make_edgex_device_service (ds ∷ dss) =
    record { api_version = api_version_v2; payload = to_edgex_device_service ds }
    ∷ make_edgex_device_service dss
