-- ===== src/Controllers/DeviceServiceSyncer.antt =====
-- pkg/controllers/deviceservice_syncer.go: one round of the synchronization of device services from
-- the edge platform to the cluster.
pub mod Rounds
pub mod Convergence
use yurt_device_controller.Controllers.Loops.{repeat}
use yurt_device_controller.Prelude.{String, ◌<>◌, ℕ, List, [], ◌∷◌, false, ◌==◌, if◌then◌else◌}
use yurt_device_controller.Prelude.Dict.{Dict}
use yurt_device_controller.Prelude.Io.{
  Io, ok, Result, value, error, pure, attempt, call, is_conflict, ◌>>=◌,
}
use yurt_device_controller.Api.{DeviceService}
use yurt_device_controller.EdgeX.Names.{edgex_object_name, get_edge_device_service_name}
use yurt_device_controller.Clients.Interface.{DeviceServiceInterface}
use yurt_device_controller.Controllers.Kube.{KubeClient}
use yurt_device_controller.Controllers.Differences.{
  Contents, keyed_by_name, find_differences, create_objects, delete_objects,
}

pub record DeviceServiceSyncer (W : Type 0) : Type 0 where
  pub client : KubeClient W DeviceService
  pub device_service_cli : DeviceServiceInterface W
  pub node_pool : String
  -- in nanoseconds, the bits of an int64
  pub sync_period : ℕ
  pub namespace : String

module _ {W : Type 0} (ds : DeviceServiceSyncer W) where
  -- `completeCreateContent`
  unfoldable pub create_service_content : DeviceService → DeviceService
  create_service_content d = record d {
    metadata = record (d.metadata) {
      name = ds.node_pool <> ("-" <> d.metadata.name);
      namespace = ds.namespace;
    };
    spec = record (d.spec) { node_pool = ds.node_pool; managed = false };
  }

  -- `completeUpdateContent`
  unfoldable pub update_service_content : DeviceService → DeviceService → DeviceService
  update_service_content kd ed = record kd {
    status = record (kd.status) {
      last_connected = ed.status.last_connected;
      last_reported = ed.status.last_reported;
      admin_state = ed.status.admin_state;
    };
  }

  abbrev pub service_contents : Contents DeviceService
  service_contents = record {
    edge_name = λ d. get_edge_device_service_name d edgex_object_name;
    create_content = create_service_content;
    update_content = update_service_content;
    is_synced = λ d. d.status.synced;
  }

  -- `getAllDeviceServices`
  unfoldable pub get_all_device_services : Io W (Dict DeviceService × Dict DeviceService)
  get_all_device_services = do
    edge ← ds.device_service_cli.list
    kube ← call (ds.client.list ds.node_pool ds.namespace)
    pure (keyed_by_name service_contents [] edge, keyed_by_name service_contents [] kube)

  -- `findDiffDeviceServices`, `syncEdgeToKube` and `deleteDeviceServices`
  abbrev pub find_diff_device_services :
      Dict DeviceService
      → Dict DeviceService
      → Dict DeviceService × Dict DeviceService × Dict DeviceService
  find_diff_device_services = find_differences service_contents

  abbrev pub sync_services_to_kube : Dict DeviceService → W → Result (Unit {0}) × W
  sync_services_to_kube = create_objects ds.client

  abbrev pub delete_device_services : Dict DeviceService → W → Result (Unit {0}) × W
  delete_device_services = delete_objects ds.client

  -- `updateDeviceServices`: a service without a resource version is passed over.
  unfoldable pub update_device_services : Dict DeviceService → W → Result (Unit {0}) × W
  update_device_services [] w = (value tt, w)
  update_device_services ((k, d) ∷ rest) w =
      let (r, w') = ds.client.update_status d w in
      let skipped = update_device_services rest w in
      let next = update_device_services rest w' in
      if d.metadata.resource_version == ""
      then skipped
      else elim r [ value _ ↦ next | error e ↦ if is_conflict e then next else (error e, w') ]

  -- The steps after the lists: errors are logged, and the next step is made all the same.
  unfoldable pub apply_differences : Dict DeviceService → Dict DeviceService → W → W
  apply_differences edge kube w =
      let (redundant_edge, redundant_kube, synced) = find_diff_device_services edge kube in
      let w₁ = (sync_services_to_kube redundant_edge w).1 in
      let w₂ = (delete_device_services redundant_kube w₁).1 in (update_device_services synced w₂).1

  -- One round of `Run`.
  unfoldable pub sync_round : Io W (Unit {0})
  sync_round = do
    listed ← attempt (get_all_device_services)
    elim listed [
      | error e ↦ pure tt
      | value (edge, kube) ↦ λ w. (ok tt, apply_differences edge kube w)
    ]

  -- `Run`, until the timer has fired so many times.
  unfoldable pub run : ℕ → Io W (Unit {0})
  run n = repeat n (sync_round)
