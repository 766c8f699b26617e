-- ===== src/Controllers/DeviceServices/Setup.antt =====
-- `SetupWithManager` (pkg/controllers/deviceservice_controller.go): the reconciler with the client of
-- the edge platform.
use yurt_device_controller.Prelude.{String, ◌<>◌, ◌≡◌, arith, true, same_number}
use yurt_device_controller.Prelude.Io.{value, fail, new_error}
use yurt_device_controller.Api.{DeviceService}
use yurt_device_controller.Clients.Errors.{not_found_suffix}
use yurt_device_controller.EdgeX.Names.{edgex_object_name, get_edge_device_service_name}
use yurt_device_controller.EdgeX.Http.{Response, get_method}
use yurt_device_controller.EdgeX.ServiceClient.{
  EdgexDeviceServiceClient, service_url, get_service, service_interface,
}
use yurt_device_controller.Controllers.Kube.{KubeClient, ConditionsUtil}
use yurt_device_controller.Controllers.Session.{Session, any, is_creation, write_status}
use yurt_device_controller.Controllers.DeviceServices.Lifecycle.{
  DeviceServiceReconciler, add_service, reconcile_create_device_service,
}

module _ {W : Type 0} (eds : EdgexDeviceServiceClient W) where
  abbrev pub setup_services :
      KubeClient W DeviceService → ConditionsUtil → String → DeviceServiceReconciler W
  setup_services client conditions node_pool = record {
    client = client;
    conditions = conditions;
    device_service_cli = service_interface eds;
    node_pool = node_pool;
  }

  get_missing_service :
      (name : String) (w w' : W) (resp : Response)
      → eds.http.send get_method (service_url eds ("/name/" <> name)) "" w ≡ (value resp, w')
      → same_number resp.status_code 404 ≡ true
      → get_service eds name w ≡ (fail (new_error (("deviceservice " <> name) <> " not found")), w')
  unfolding get_service
  get_missing_service name w w' resp sent missing = ground arith

  -- Where the edge platform answers the search for a device service with status 404, the reconciler
  -- asks it to create the service, whatever the service's name.
  pub missing_service_is_created :
      (client : KubeClient W DeviceService) (conditions : ConditionsUtil) (pool : String)
      (s : Session W DeviceService) (w : W) (resp : Response)
      → eds.http.send get_method
          (service_url eds ("/name/" <> get_edge_device_service_name s.object edgex_object_name))
          ""
          s.world
        ≡ (value resp, w)
      → same_number resp.status_code 404 ≡ true
      → any is_creation
          (reconcile_create_device_service (setup_services client conditions pool) s).1.trace
        ≡ true
  unfolding reconcile_create_device_service add_service write_status
  missing_service_is_created client conditions pool s w resp sent missing =
      let name = get_edge_device_service_name s.object edgex_object_name in
      ground (
        arith,
        get_missing_service name s.world w resp sent missing,
        not_found_suffix ("deviceservice " <> name),
      )
