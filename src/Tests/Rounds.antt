-- ===== src/Tests/Rounds.antt =====
-- Rounds of the other syncers over the same cluster.
use yurt_device_controller.Prelude.{is_some, String, ◌≡◌, refl, [], ◌∷◌, true, false, none, some}
use yurt_device_controller.Prelude.Dict.{Dict}
use yurt_device_controller.Prelude.Io.{ok, fail, new_error}
use yurt_device_controller.Api.{DeviceService, DeviceProfile}
use yurt_device_controller.Clients.Interface.{DeviceServiceInterface, DeviceProfileInterface}
use yurt_device_controller.EdgeX.Dto.{EdgeXDeviceProfile}
use yurt_device_controller.EdgeX.Names.{
  edgex_object_name, to_kube_name, get_edge_device_service_name, get_edge_device_profile_name,
}
use yurt_device_controller.EdgeX.Services.{to_kube_device_service}
use yurt_device_controller.EdgeX.Profiles.{to_kube_device_profile}
use yurt_device_controller.Controllers.Differences.{keyed_by_name, find_differences}
use yurt_device_controller.Controllers.Differences.Agreement.{agreement_is_kept}
use yurt_device_controller.Controllers.DeviceServiceSyncer.{
  DeviceServiceSyncer, service_contents, create_service_content, sync_round,
}
use yurt_device_controller.Controllers.Differences.Rounds.{IsCreatable}
use yurt_device_controller.Controllers.DeviceServiceSyncer.Convergence.{service_round_converges}
use yurt_device_controller.Controllers.DeviceProfileSyncer
use yurt_device_controller.Controllers.DeviceProfileSyncer.{
  DeviceProfileSyncer, profile_contents, create_profile_content,
}
use yurt_device_controller.Controllers.DeviceProfileSyncer.Convergence.{profile_round_converges}
use yurt_device_controller.Tests.Wire.{go}
use yurt_device_controller.Tests.Services.{service}
use yurt_device_controller.Tests.Profiles.{unsynced_profile}
use yurt_device_controller.Tests.Syncers.{edge_service}
use yurt_device_controller.Tests.Steady.{store, stored, store-Steady, single-IsCreatable}

abbrev service_name : DeviceService → String
service_name d = get_edge_device_service_name d edgex_object_name

abbrev service_kube_name : DeviceService → String
service_kube_name d = d.metadata.name

abbrev listing_services : DeviceServiceInterface (Dict DeviceService)
listing_services = record {
  create = λ d m. (ok d, m);
  delete = λ n m. (ok tt, m);
  update = λ d m. (ok (some d), m);
  get = λ n m. (fail (new_error "deviceservice not found"), m);
  list = λ m. (ok (to_kube_device_service go edge_service ∷ []), m);
}

abbrev service_syncer : DeviceServiceSyncer (Dict DeviceService)
service_syncer = record {
  client = store service_name service_kube_name;
  device_service_cli = listing_services;
  node_pool = "hangzhou";
  sync_period = 5;
  namespace = "plant";
}

-- The resource that is synced goes, and the service of the edge platform comes.
new_service-IsCreatable :
    IsCreatable
      (λ d. (create_service_content service_syncer d).metadata.name)
      ((store-Steady service_name service_kube_name).refuses (("modbus", service) ∷ []))
      (keyed_by_name
        (service_contents service_syncer)
        []
        (to_kube_device_service go edge_service ∷ []))
      (keyed_by_name (service_contents service_syncer) [] (service ∷ []))
unfolding get_edge_device_service_name keyed_by_name to_kube_device_service create_service_content
    to_kube_name
new_service-IsCreatable =
    single-IsCreatable _ _ "Modbus_TCP" (to_kube_device_service go edge_service) _ refl

service_round_converges_example :
    (m : Dict DeviceService) × (sync_round service_syncer (("modbus", service) ∷ []) ≡ (ok tt, m))
    × (is_some (stored service_name service_kube_name m "Modbus_TCP") ≡ true)
    × (is_some (stored service_name service_kube_name m "modbus") ≡ false)
unfolding get_edge_device_service_name keyed_by_name to_kube_device_service
service_round_converges_example =
    let start = ("modbus", service) ∷ [] in
    let (m, returns, after) =
      service_round_converges service_syncer (stored service_name service_kube_name)
        (store-Steady service_name service_kube_name) go (edge_service ∷ []) (service ∷ []) start
        start start refl refl new_service-IsCreatable refl (λ k. refl) in
    (m, returns, after "Modbus_TCP", after "modbus")

abbrev profile_name : DeviceProfile → String
profile_name d = get_edge_device_profile_name d edgex_object_name

abbrev pub edge_profile : EdgeXDeviceProfile
edge_profile = record {
  id = "p2";
  name = "Thermo_2";
  description = "";
  manufacturer = "";
  model = "";
  labels = [];
  device_resources = [];
  device_commands = [];
}

abbrev profile_kube_name : DeviceProfile → String
profile_kube_name d = d.metadata.name

abbrev listing_profiles : DeviceProfileInterface (Dict DeviceProfile)
listing_profiles = record {
  create = λ d m. (ok d, m);
  delete = λ n m. (ok tt, m);
  update = λ d m. (ok none, m);
  get = λ n m. (fail (new_error "DeviceProfile not found"), m);
  list = λ m. (ok (to_kube_device_profile go edge_profile ∷ []), m);
}

abbrev profile_syncer : DeviceProfileSyncer (Dict DeviceProfile)
profile_syncer = record {
  client = store profile_name profile_kube_name;
  sync_period = 5;
  node_pool = "hangzhou";
  edge_client = listing_profiles;
  namespace = "plant";
}

-- A profile that is not synced stays.
new_profile-IsCreatable :
    IsCreatable
      (λ d. (create_profile_content profile_syncer d).metadata.name)
      ((store-Steady profile_name profile_kube_name).refuses (("thermo", unsynced_profile) ∷ []))
      (keyed_by_name
        (profile_contents profile_syncer)
        []
        (to_kube_device_profile go edge_profile ∷ []))
      (keyed_by_name (profile_contents profile_syncer) [] (unsynced_profile ∷ []))
unfolding get_edge_device_profile_name keyed_by_name to_kube_device_profile create_profile_content
    to_kube_name
new_profile-IsCreatable =
    single-IsCreatable _ _ "Thermo_2" (to_kube_device_profile go edge_profile) _ refl

profile_round_converges_example :
    (m : Dict DeviceProfile) × (DeviceProfileSyncer.sync_round profile_syncer
        (("thermo", unsynced_profile) ∷ [])
      ≡ (ok tt, m))
    × (is_some (stored profile_name profile_kube_name m "Thermo_2") ≡ true)
    × (is_some (stored profile_name profile_kube_name m "thermo") ≡ true)
unfolding get_edge_device_profile_name keyed_by_name to_kube_device_profile
profile_round_converges_example =
    let start = ("thermo", unsynced_profile) ∷ [] in
    let (m, returns, after) =
      profile_round_converges profile_syncer (stored profile_name profile_kube_name)
        (store-Steady profile_name profile_kube_name) go (edge_profile ∷ []) (unsynced_profile ∷ [])
        start start start refl refl new_profile-IsCreatable refl (λ k. refl) in
    (m, returns, after "Thermo_2", after "thermo")

agreement_is_kept_example :
    (find_differences
      (profile_contents profile_syncer)
      (keyed_by_name (profile_contents profile_syncer) [] (unsynced_profile ∷ []))
      (keyed_by_name (profile_contents profile_syncer) [] (unsynced_profile ∷ []))).0
    ≡ []
agreement_is_kept_example =
    (agreement_is_kept (profile_contents profile_syncer) (unsynced_profile ∷ [])
      (unsynced_profile ∷ []) (λ k. refl)).0
