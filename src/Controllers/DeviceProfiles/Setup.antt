-- ===== src/Controllers/DeviceProfiles/Setup.antt =====
-- `SetupWithManager` (pkg/controllers/deviceprofile_controller.go): the reconciler with the client of
-- the edge platform.
use yurt_device_controller.Prelude.{String, ◌<>◌, ◌≡◌, arith, true, same_number}
use yurt_device_controller.Prelude.Io.{value, fail, new_error}
use yurt_device_controller.Api.{DeviceProfile}
use yurt_device_controller.Clients.Errors.{not_found_suffix}
use yurt_device_controller.EdgeX.Http.{Response, get_method}
use yurt_device_controller.EdgeX.ProfileClient.{
  EdgexDeviceProfile, profile_url, get_profile, profile_interface,
}
use yurt_device_controller.Controllers.Kube.{KubeClient}
use yurt_device_controller.Controllers.Session.{Session, any, is_creation, write_status}
use yurt_device_controller.Controllers.DeviceProfiles.Reconcile.{
  DeviceProfileReconciler, adopt_profile, add_profile, reconcile_create_device_profile,
}

module _ {W : Type 0} (cdc : EdgexDeviceProfile W) where
  abbrev pub setup_profiles : KubeClient W DeviceProfile → String → DeviceProfileReconciler W
  setup_profiles client node_pool = record {
    client = client;
    edge_client = profile_interface cdc;
    node_pool = node_pool;
  }

  get_missing_profile :
      (name : String) (w w' : W) (resp : Response)
      → cdc.http.send get_method (profile_url cdc ("/name/" <> name)) "" w ≡ (value resp, w')
      → same_number resp.status_code 404 ≡ true
      → get_profile cdc name w ≡ (fail (new_error (("DeviceProfile " <> name) <> " not found")), w')
  unfolding get_profile
  get_missing_profile name w w' resp sent missing = ground arith

  -- Where the edge platform answers the search for a device profile with status 404, the reconciler
  -- asks it to create the profile, whatever the profile's name.
  pub missing_profile_is_created :
      (client : KubeClient W DeviceProfile) (pool name : String) (s : Session W DeviceProfile)
      (w : W) (resp : Response)
      → cdc.http.send get_method (profile_url cdc ("/name/" <> name)) "" s.world ≡ (value resp, w)
      → same_number resp.status_code 404 ≡ true
      → any is_creation
          (reconcile_create_device_profile (setup_profiles client pool) name s).1.trace
        ≡ true
  unfolding reconcile_create_device_profile add_profile adopt_profile write_status
  missing_profile_is_created client pool name s w resp sent missing = ground (
    arith,
    get_missing_profile name s.world w resp sent missing,
    not_found_suffix ("DeviceProfile " <> name),
  )
