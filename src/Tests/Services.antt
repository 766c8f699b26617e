-- ===== src/Tests/Services.antt =====
-- The reconciler of device services at concrete inputs.
use yurt_device_controller.Prelude.{true, false, refl, [], some, ◌≡◌}
use yurt_device_controller.Prelude.Io.{new_error, value, ok, fail, Error}
use yurt_device_controller.Api.{DeviceService}
use yurt_device_controller.Clients.Errors.{is_not_found_err}
use yurt_device_controller.Clients.Interface.{DeviceServiceInterface}
use yurt_device_controller.EdgeX.ServiceClient.{EdgexDeviceServiceClient}
use yurt_device_controller.Controllers.Kube.{KubeClient, accepted}
use yurt_device_controller.Controllers.Session.{Session, patch, write_status}
use yurt_device_controller.Controllers.DeviceServices.Lifecycle.{
  DeviceServiceReconciler, remove_service, reconcile_delete_device_service,
}
use yurt_device_controller.Controllers.DeviceServices.Reconcile.{
  after_service_delete, reconcile_service, update_service_conditions, reconcile_loaded,
}
use yurt_device_controller.Controllers.DeviceServices.Deletion.{service_deletion_needs_clearing}
use yurt_device_controller.Tests.Samples.{Platform, sample_metadata, conditions}
use yurt_device_controller.Tests.Wire.{go, http, codec}

abbrev pub service : DeviceService
service = record {
  metadata = record sample_metadata { name = "modbus" };
  spec = record {
    base_address = "http://modbus:59901";
    description = "";
    labels = [];
    admin_state = "UNLOCKED";
    managed = false;
    node_pool = "hangzhou";
  };
  status = record {
    synced = true;
    edge_id = "s1";
    last_connected = 0;
    last_reported = 0;
    admin_state = "UNLOCKED";
    conditions = [];
  };
}

abbrev pub unsynced_service : DeviceService
unsynced_service = record service { status = record (service.status) { synced = false } }

abbrev dying_service : DeviceService
dying_service = record service {
  metadata = record (service.metadata) { deletion_timestamp = some 5 };
}

-- An edge platform without device services, which deletes none and accepts new ones.
abbrev locked_error : Error
locked_error = new_error "device service is locked"

abbrev pub service_edge : DeviceServiceInterface Platform
service_edge = record {
  create =
      λ d p. (ok (record d { status = record (d.status) { edge_id = "s9"; synced = true } }), p);
  delete = λ n p. (fail locked_error, p);
  update = λ d p. (ok (some d), p);
  get = λ n p. (fail (new_error "deviceservice not found"), p);
  list = λ p. (ok [], p);
}

abbrev pub service_cluster : KubeClient Platform DeviceService
service_cluster = record {
  get = λ n p. (value service, p);
  patch_finalizers =
      λ d fs p. (value (record d { metadata = record (d.metadata) { finalizers = fs } }), p);
  update_status = λ d p. (value d, p);
  create = λ d p. (value tt, p);
  delete = λ d p. (value tt, p);
  list = λ pool namespace p. (value [], p);
}

abbrev reconciler : DeviceServiceReconciler Platform
reconciler = record {
  client = service_cluster;
  conditions = conditions;
  device_service_cli = service_edge;
  node_pool = "hangzhou";
}

abbrev begin : DeviceService → Session Platform DeviceService
begin d = record { world = []; object = d; trace = [] }

service_deletion_needs_clearing_example :
    accepted (service_cluster.patch_finalizers dying_service [] []).0 ≡ true
unfolding reconcile_loaded reconcile_service reconcile_delete_device_service remove_service patch
    after_service_delete update_service_conditions write_status is_not_found_err
service_deletion_needs_clearing_example =
    (service_deletion_needs_clearing reconciler [] dying_service refl).1

abbrev service_client : EdgexDeviceServiceClient Platform
service_client = record { http = http 404; codec = codec; go = go; core_meta_addr = "meta:59881" }
