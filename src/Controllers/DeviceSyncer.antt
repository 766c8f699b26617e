-- ===== src/Controllers/DeviceSyncer.antt =====
-- pkg/controllers/device_syncer.go: one round of the synchronization from the edge platform to the
-- cluster, and the loop of `Run`. `Diff` is about the devices that a round creates, deletes and
-- updates, `Rounds` about its calls, `Equivalence` about the comparison of the other syncers,
-- `Convergence` and `Loop` about what rounds leave in the cluster, `Locations` about panics, and
-- `Worlds` about what a round cannot change.
pub mod Diff
pub mod Rounds
pub mod Equivalence
pub mod Convergence
pub mod Locations
pub mod Loop
pub mod Worlds
use yurt_device_controller.Controllers.Loops.{repeat}
use yurt_device_controller.Prelude.{
  String, ◌<>◌, List, [], ◌∷◌, ℕ, Option, none, some, Bool, true, false, if◌then◌else◌, is_some,
}
use yurt_device_controller.Prelude.Dict.{Dict, lookup, insert, contains}
use yurt_device_controller.Prelude.Io.{
  Io, ok, Result, value, error, pure, raise, attempt, call, is_already_exists, is_conflict, ◌>>=◌,
  ◌>>◌,
}
use yurt_device_controller.Api.{Device}
use yurt_device_controller.EdgeX.Names.{edgex_object_name, get_edge_device_name}
use yurt_device_controller.Clients.Interface.{DeviceInterface}
use yurt_device_controller.Controllers.Kube.{KubeClient}

pub record DeviceSyncer (W : Type 0) : Type 0 where
  pub client : KubeClient W Device
  pub node_pool : String
  pub device_cli : DeviceInterface W
  -- in nanoseconds, the bits of an int64
  pub sync_period : ℕ
  pub namespace : String

-- The name of a device on the edge platform.
abbrev pub actual_name : Device → String
actual_name d = get_edge_device_name d edgex_object_name

-- The loops that fill a map from the name to the device.
unfoldable pub by_name : Dict Device → List Device → Dict Device
by_name m [] = m
by_name m (d ∷ ds) = by_name (insert (actual_name d) d m) ds

module _ {W : Type 0} (ds : DeviceSyncer W) where
  unfoldable pub get_all_devices : Io W (Dict Device × Dict Device)
  get_all_devices = do
    edge_devices ← ds.device_cli.list
    kube_devices ← call (ds.client.list ds.node_pool ds.namespace)
    pure (by_name [] edge_devices, by_name [] kube_devices)

  unfoldable pub complete_create_content : Device → Device
  complete_create_content d = record d {
    metadata = record (d.metadata) {
      name = ds.node_pool <> ("-" <> d.metadata.name);
      namespace = ds.namespace;
    };
    spec = record (d.spec) { node_pool = ds.node_pool; managed = false };
  }

  -- The error of the list of properties is dropped, and its map is taken as it is.
  unfoldable pub complete_update_content : Device → Device → W → Device × W
  complete_update_content kd ed w =
      let (reply, w') = ds.device_cli.list_properties_state kd w in
      (
        record kd {
          status = record (kd.status) {
            last_connected = ed.status.last_connected;
            last_reported = ed.status.last_reported;
            admin_state = ed.status.admin_state;
            operating_state = ed.status.operating_state;
            device_properties = some reply.1;
          };
        },
        w',
      )

  -- The devices to create and those to update.
  abbrev pub Found : Type 0
  Found = Dict Device × Dict Device

  -- The body of the loop over the devices of the edge platform.
  visit_edge : Dict Device → Device → Found → W → Found × W
  visit_edge kube ed (redundant, synced) w = elim (lookup (actual_name ed) kube) [
    | none ↦ ((insert (actual_name ed) (complete_create_content ed) redundant, synced), w)
    | some kd ↦
        let (u, w') = complete_update_content kd ed w in
        ((redundant, insert (actual_name ed) u synced), w')
  ]

  walk_edge : Dict Device → Dict Device → Found → W → Found × W
  unfolding visit_edge
  walk_edge kube [] found w = (found, w)
  walk_edge kube ((i, ed) ∷ es) found w =
      let (found', w') = visit_edge kube ed found w in walk_edge kube es found' w'

  -- The loop over the devices of the cluster: those to delete.
  walk_kube : Dict Device → Dict Device → Dict Device → Dict Device
  walk_kube edge [] redundant = redundant
  walk_kube edge ((i, kd) ∷ ks) redundant = walk_kube edge ks (
      if kd.status.synced
      then (if contains (actual_name kd) edge
          then redundant
          else insert (actual_name kd) kd redundant)
      else redundant)

  -- The devices to create, to delete and to update.
  unfoldable pub find_diff_device :
      Dict Device → Dict Device → W → (Dict Device × Dict Device × Dict Device) × W
  unfolding walk_edge walk_kube
  find_diff_device edge kube w =
      let (found, w') = walk_edge kube edge ([], []) w in
      ((found.0, walk_kube edge kube [], found.1), w')

  created_or_there : Result (Unit {0}) → Result (Unit {0})
  created_or_there (value x) = value x
  created_or_there (error e) = if is_already_exists e then value tt else error e

  unfoldable pub sync_edge_to_kube : Dict Device → W → Result (Unit {0}) × W
  unfolding created_or_there
  sync_edge_to_kube [] w = (value tt, w)
  sync_edge_to_kube ((k, ed) ∷ eds) w =
      let (r, w') = ds.client.create ed w in
      let rest = sync_edge_to_kube eds w' in
      elim (created_or_there r) [ value _ ↦ rest | error e ↦ (error e, w') ]

  unfoldable pub delete_devices : Dict Device → W → Result (Unit {0}) × W
  delete_devices [] w = (value tt, w)
  delete_devices ((k, kd) ∷ kds) w =
      let (r, w') = ds.client.delete kd w in
      let rest = delete_devices kds w' in elim r [ value _ ↦ rest | error e ↦ (error e, w') ]

  unfoldable pub update_devices : Dict Device → W → Result (Unit {0}) × W
  update_devices [] w = (value tt, w)
  update_devices ((k, d) ∷ rest) w =
      let (r, w') = ds.client.update_status d w in
      let next = update_devices rest w' in
      elim r [ value _ ↦ next | error e ↦ if is_conflict e then next else (error e, w') ]

  -- The steps after the lists: errors are logged, and the next step is made all the same.
  unfoldable pub apply_diff : Dict Device × Dict Device × Dict Device → W → W
  apply_diff (redundant_edge, redundant_kube, synced) w =
      let w₁ = (sync_edge_to_kube redundant_edge w).1 in
      let w₂ = (delete_devices redundant_kube w₁).1 in (update_devices synced w₂).1

  -- One round of `Run`.
  unfoldable pub sync_round : Io W (Unit {0})
  sync_round = do
    listed ← attempt (get_all_devices)
    elim listed [
      | error e ↦ pure tt
      | value (edge, kube) ↦
          λ w. let (diff, w') = find_diff_device edge kube w in (ok tt, apply_diff diff w')
    ]

  -- `Run`, until the timer has fired so many times.
  unfoldable pub run : ℕ → Io W (Unit {0})
  run n = repeat n (sync_round)
