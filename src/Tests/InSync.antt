-- ===== src/Tests/InSync.antt =====
-- A world in which one device is followed: whether the edge platform has it, and what the cluster has of
-- its resource.
use yurt_device_controller.Prelude.{
  ◌≡◌, refl, arith, eq_refl, ap, ◌==◌, ◌&&◌, [], Bool, true, false, if◌then◌else◌,
}
use yurt_device_controller.Prelude.Io.{Result, conflict, ok, value, error}
use yurt_device_controller.EdgeX.Names.{get_edge_device_name}
use yurt_device_controller.Controllers.Kube.{KubeClient, done}
use yurt_device_controller.Api.{Device, ObjectMeta}
use yurt_device_controller.Controllers.Session.{Session}
use yurt_device_controller.Controllers.Devices.Reconciler.{DeviceReconciler}
use yurt_device_controller.Controllers.Devices.Reconcile.{reconcile_loaded}
use yurt_device_controller.Controllers.Devices.Convergence.{kind}
use yurt_device_controller.Controllers.Session.Synced.{Stored, ClusterAnswers, IsSynced, IsNew}
use yurt_device_controller.Controllers.Devices.OnEdgex.{HoldsDevices, device_gets_in_sync_on_edgex}
use yurt_device_controller.EdgeX.Http.{Http, post_method}
use yurt_device_controller.EdgeX.Devices.{make_edgex_device_request}
use yurt_device_controller.EdgeX.DeviceClient.{device_interface}
use yurt_device_controller.EdgeX.DeviceClient.Client.{EdgexDeviceClient}
use yurt_device_controller.Tests.Wire.{go, codec, edge_device}
use yurt_device_controller.Tests.Samples.{new_device, conditions}

-- Whether the edge platform has the object, and what the cluster has.
pub record World : Type 0 where
  pub present : Bool
  pub resource : Stored

abbrev pub on_edge : World → Bool
on_edge w = w.present

abbrev pub stored : World → Stored
stored w = w.resource

abbrev pub begin : ObjectMeta → World
begin m = record { present = false; resource = (m, false) }

abbrev pub holding : World → World
holding w = record w { present = true }

abbrev pub with_metadata : ObjectMeta → World → World
with_metadata m w = record w { resource = (m, w.resource.1) }

-- A write from an object that is older than the resource conflicts.
abbrev pub unless_old : {T : Type 0} → ObjectMeta → World → Result T × World → Result T × World
unless_old m w written =
    if m.resource_version == w.resource.0.resource_version
    then written
    else (error (record { reason = conflict; message = "conflict" }), w)

-- The core-metadata service over HTTP: it has the object after a creation, and refuses a second one.
abbrev pub metadata_http : Http World
metadata_http = record {
  send = λ m url body w. elim m [
    | post_method ↦
        (value (record { status_code = if w.present then 409 else 207; body = "" }), holding w)
    | _ ↦ (value (record { status_code = if w.present then 200 else 404; body = "" }), w)
  ];
}

abbrev metadata_client : EdgexDeviceClient World
metadata_client = record {
  http = metadata_http;
  codec = codec;
  go = go;
  core_meta_addr = "meta:59881";
  core_command_addr = "command:59882";
}

abbrev cluster : KubeClient World Device
cluster = record {
  get = λ n w. (value new_device, w);
  patch_finalizers = λ d fs w.
      let m : ObjectMeta = record (d.metadata) { finalizers = fs } in
      unless_old d.metadata w (value (record d { metadata = m }), with_metadata m w);
  update_status = λ d w.
      unless_old d.metadata w (value d, record w { resource = (d.metadata, d.status.synced) });
  create = λ d w. (value tt, w);
  delete = λ d w. (value tt, w);
  list = λ pool namespace w. (value [], w);
}

abbrev syncing : DeviceReconciler World
syncing = record {
  client = cluster;
  conditions = conditions;
  device_cli = device_interface metadata_client;
  node_pool = "hangzhou";
}

abbrev over_edgex : DeviceReconciler World
over_edgex = record syncing { device_cli = device_interface metadata_client }

-- What the edge platform accepts.
abbrev known : Device → Bool
known d = (d.spec.profile == "thermo") && (d.spec.service == "modbus")

cluster-ClusterAnswers : ClusterAnswers (kind over_edgex known) on_edge stored
unfolding get_edge_device_name
cluster-ClusterAnswers = record {
  patches = λ d fs w current.
      let m : ObjectMeta = record (d.metadata) { finalizers = fs } in
      let same = ap (λ (x : ObjectMeta). x.resource_version) current in
      (
        record d { metadata = m },
        with_metadata m w,
        ground (arith, same, eq_refl d.metadata.resource_version),
        refl,
        refl,
        refl,
        refl,
        refl,
        refl,
      );
  writes = λ d w current.
      let same = ap (λ (x : ObjectMeta). x.resource_version) current in
      (
        d,
        record w { resource = (d.metadata, d.status.synced) },
        ground (arith, same, eq_refl d.metadata.resource_version),
        refl,
        refl,
        refl,
      );
}

metadata_client-HoldsDevices : HoldsDevices metadata_client "thermostat" on_edge stored known
unfolding make_edgex_device_request
metadata_client-HoldsDevices = record {
  found = λ w there. ("", w, edge_device, ground arith, refl, refl, there, refl);
  missing = λ w away. ("", w, ground arith, away, refl);
  accepts = λ d w named takes away. ("", "", "e9", holding w, refl, ground arith, refl, refl, refl);
}

new_device-IsNew :
    IsNew (kind over_edgex known) "thermostat" on_edge stored (begin new_device.metadata) new_device
unfolding get_edge_device_name
new_device-IsNew = record {
  named = refl;
  current = refl;
  alive = refl;
  acceptable = refl;
  unsynced = refl;
}

device_gets_in_sync_on_edgex_example :
    (s : Session World Device) × (reconcile_loaded over_edgex (begin new_device.metadata) new_device
      ≡ (ok done, s))
    × IsSynced (kind over_edgex known) "thermostat" on_edge stored s
device_gets_in_sync_on_edgex_example =
    device_gets_in_sync_on_edgex syncing metadata_client "thermostat" on_edge stored known
      (begin new_device.metadata) new_device cluster-ClusterAnswers metadata_client-HoldsDevices
      refl new_device-IsNew
