-- ===== src/Controllers/DeviceProfileSyncer.antt =====
-- pkg/controllers/deviceprofile_syncer.go: one round of the synchronization of device profiles from
-- the edge platform to the cluster.
pub mod Convergence
use yurt_device_controller.Controllers.Loops.{repeat}
use yurt_device_controller.Prelude.{String, ◌<>◌, ℕ, [], ◌≡◌, arith, eq_iff}
use yurt_device_controller.Prelude.Dict.{Dict}
use yurt_device_controller.Prelude.Io.{Io, ok, Result, value, error, pure, attempt, call, ◌>>=◌}
use yurt_device_controller.Api.{DeviceProfile}
use yurt_device_controller.EdgeX.Dto.{EdgeXDeviceProfile}
use yurt_device_controller.EdgeX.Names.{GoText, edgex_object_name, get_edge_device_profile_name}
use yurt_device_controller.EdgeX.Profiles.{to_kube_device_profile}
use yurt_device_controller.Clients.Interface.{DeviceProfileInterface}
use yurt_device_controller.Controllers.Kube.{KubeClient}
use yurt_device_controller.Controllers.Differences.{
  Contents, keyed_by_name, find_differences, create_objects, delete_objects,
}

pub record DeviceProfileSyncer (W : Type 0) : Type 0 where
  pub client : KubeClient W DeviceProfile
  -- in nanoseconds, the bits of an int64
  pub sync_period : ℕ
  pub node_pool : String
  pub edge_client : DeviceProfileInterface W
  pub namespace : String

module _ {W : Type 0} (dps : DeviceProfileSyncer W) where
  -- `completeCreateContent`
  unfoldable pub create_profile_content : DeviceProfile → DeviceProfile
  create_profile_content d = record d {
    metadata = record (d.metadata) {
      name = dps.node_pool <> ("-" <> d.metadata.name);
      namespace = dps.namespace;
    };
    spec = record (d.spec) { node_pool = dps.node_pool };
  }

  -- `completeUpdateContent` gives the resource of the cluster as it is.
  abbrev pub update_profile_content : DeviceProfile → DeviceProfile → DeviceProfile
  update_profile_content kd ed = kd

  abbrev pub profile_contents : Contents DeviceProfile
  profile_contents = record {
    edge_name = λ d. get_edge_device_profile_name d edgex_object_name;
    create_content = create_profile_content;
    update_content = update_profile_content;
    is_synced = λ d. d.status.synced;
  }

  -- `getAllDeviceProfiles`
  unfoldable pub get_all_device_profiles : Io W (Dict DeviceProfile × Dict DeviceProfile)
  get_all_device_profiles = do
    edge ← dps.edge_client.list
    kube ← call (dps.client.list dps.node_pool dps.namespace)
    pure (keyed_by_name profile_contents [] edge, keyed_by_name profile_contents [] kube)

  -- `findDiffDeviceProfiles`, `syncEdgeToKube` and `deleteDeviceProfiles`
  abbrev pub find_diff_device_profiles :
      Dict DeviceProfile
      → Dict DeviceProfile
      → Dict DeviceProfile × Dict DeviceProfile × Dict DeviceProfile
  find_diff_device_profiles = find_differences profile_contents

  abbrev pub sync_profiles_to_kube : Dict DeviceProfile → W → Result (Unit {0}) × W
  sync_profiles_to_kube = create_objects dps.client

  abbrev pub delete_device_profiles : Dict DeviceProfile → W → Result (Unit {0}) × W
  delete_device_profiles = delete_objects dps.client

  -- The steps after the lists; profiles that both platforms have are not updated.
  unfoldable pub apply_differences : Dict DeviceProfile → Dict DeviceProfile → W → W
  apply_differences edge kube w =
      let (redundant_edge, redundant_kube, synced) = find_diff_device_profiles edge kube in
      let w₁ = (sync_profiles_to_kube redundant_edge w).1 in
      (delete_device_profiles redundant_kube w₁).1

  -- One round of `Run`.
  unfoldable pub sync_round : Io W (Unit {0})
  sync_round = do
    listed ← attempt (get_all_device_profiles)
    elim listed [
      | error e ↦ pure tt
      | value (edge, kube) ↦ λ w. (ok tt, apply_differences edge kube w)
    ]

  -- `Run`, until the timer has fired so many times.
  unfoldable pub run : ℕ → Io W (Unit {0})
  run n = repeat n (sync_round)

  -- The resource that is created for a profile of the edge platform has, as its name there, the name
  -- of that profile, although its own name is translated and prefixed.
  created_profile_keeps_name :
      (go : GoText) (edp : EdgeXDeviceProfile)
      → get_edge_device_profile_name
          (create_profile_content (to_kube_device_profile go edp))
          edgex_object_name
        ≡ edp.name
  unfolding get_edge_device_profile_name create_profile_content to_kube_device_profile
  created_profile_keeps_name go edp = ground (arith, eq_iff edgex_object_name edgex_object_name)
