-- ===== src/Controllers/Devices/Setup.antt =====
-- `SetupWithManager` (pkg/controllers/device_controller.go): the reconciler with the client of the
-- edge platform, and what its calls come to.
use yurt_device_controller.Prelude.{List, String, ◌<>◌, ◌≡◌, ◌≢◌, arith, true, same_number}
use yurt_device_controller.Prelude.Io.{ok, panic, value}
use yurt_device_controller.Api.{Device, DesiredPropertyState}
use yurt_device_controller.Clients.Errors.{not_found_error, not_found_error_lem, not_found_suffix}
use yurt_device_controller.Controllers.Devices.Creation.{says_not_found}
use yurt_device_controller.EdgeX.Names.{get_edgex_name}
use yurt_device_controller.EdgeX.Http.{Response, CoreCommand, get_method}
use yurt_device_controller.EdgeX.DeviceClient.{device_interface}
use yurt_device_controller.EdgeX.DeviceClient.Client.{EdgexDeviceClient, get, name_url}
use yurt_device_controller.EdgeX.DeviceClient.Readings.{find_get_url}
use yurt_device_controller.Controllers.Devices.Properties.Values.{nil_state_panics}
use yurt_device_controller.EdgeX.DeviceClient.Properties.{
  missing_command, get_command_response_by_name, known_url,
}
use yurt_device_controller.Controllers.Kube.{KubeClient, ConditionsUtil}
use yurt_device_controller.Controllers.Session.{Session}
use yurt_device_controller.Controllers.Devices.Reconciler.{DeviceReconciler}
use yurt_device_controller.Controllers.Devices.Properties.{Progress, reconcile_property}

module _ {W : Type 0} (efc : EdgexDeviceClient W) where
  abbrev pub setup_with_manager : KubeClient W Device → ConditionsUtil → String → DeviceReconciler W
  setup_with_manager client conditions node_pool = record {
    client = client;
    conditions = conditions;
    device_cli = device_interface efc;
    node_pool = node_pool;
  }

  -- When the edge platform answers the search for a device with status 404, the client's error is
  -- one that the reconciler takes for "not found", whatever the name.
  pub missing_device_is_not_found :
      (name : String) (w w' : W) (resp : Response)
      → efc.http.send get_method (name_url efc name) "" w ≡ (value resp, w')
      → same_number resp.status_code 404 ≡ true
      → says_not_found (get efc name w).0 ≡ true
  unfolding get
  missing_device_is_not_found name w w' resp sent status =
      ground (arith, not_found_suffix ("Device " <> name))

  module _ (client : KubeClient W Device) (conditions : ConditionsUtil) (pool : String) where
    -- A property that has a desired value, no remembered URL and no command that reads it crashes
    -- the reconciler: the client gives a nil state with its "not found" error.
    pub missing_command_panics :
        (d : Device) (p : DesiredPropertyState) (progress : Progress) (s : Session W Device)
        (cs : List CoreCommand) (w : W)
        → p.desired_value ≢ ""
        → known_url efc p.name d ≡ ""
        → get_command_response_by_name efc (get_edgex_name d.metadata) s.world ≡ (ok cs, w)
        → find_get_url p.name cs ≡ ""
        → (reconcile_property (setup_with_manager client conditions pool) d p progress s).0 ≡ panic
    missing_command_panics d p progress s cs w wanted unknown commands unreadable =
        nil_state_panics (setup_with_manager client conditions pool) d p progress.0 progress.1 s
          not_found_error w wanted
          (missing_command efc p.name d s.world w cs unknown commands unreadable)
          not_found_error_lem
