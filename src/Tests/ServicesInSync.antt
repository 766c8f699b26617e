-- ===== src/Tests/ServicesInSync.antt =====
-- A world in which one service is followed: whether the edge platform has it, and what the
-- cluster has of its resource.
use yurt_device_controller.Prelude.{◌≡◌, refl, arith, eq_refl, ap, ◌==◌, Bool, []}
use yurt_device_controller.Prelude.Io.{ok, value}
use yurt_device_controller.EdgeX.Names.{get_edge_device_service_name}
use yurt_device_controller.Api.{DeviceService, ObjectMeta}
use yurt_device_controller.Controllers.Kube.{done}
use yurt_device_controller.Controllers.Session.{Session}
use yurt_device_controller.Controllers.Session.Synced.{ClusterAnswers, IsSynced, IsNew}
use yurt_device_controller.Controllers.DeviceServices.OnEdgex.{
  HoldsServices, service_gets_in_sync_on_edgex,
}
use yurt_device_controller.EdgeX.Services.{make_edgex_device_service}
use yurt_device_controller.EdgeX.ServiceClient.{EdgexDeviceServiceClient, service_interface}
use yurt_device_controller.Tests.Wire.{go, codec}
use yurt_device_controller.Tests.Syncers.{edge_service}
use yurt_device_controller.Controllers.DeviceServices.Lifecycle.{DeviceServiceReconciler}
use yurt_device_controller.Controllers.DeviceServices.Reconcile.{reconcile_loaded}
use yurt_device_controller.Controllers.DeviceServices.Convergence.{kind}
use yurt_device_controller.Tests.Samples.{conditions}
use yurt_device_controller.Tests.InSync.{
  World, on_edge, stored, begin, holding, with_metadata, unless_old, metadata_http,
}
use yurt_device_controller.Tests.Services.{unsynced_service}

abbrev metadata_client : EdgexDeviceServiceClient World
metadata_client = record {
  http = metadata_http;
  codec = record codec { decode_service = λ body. value edge_service };
  go = go;
  core_meta_addr = "meta:59881";
}

abbrev syncing : DeviceServiceReconciler World
syncing = record {
  client = record {
    get = λ n w. (value unsynced_service, w);
    patch_finalizers = λ d fs w.
        let m : ObjectMeta = record (d.metadata) { finalizers = fs } in
        unless_old d.metadata w (value (record d { metadata = m }), with_metadata m w);
    update_status = λ d w.
        unless_old d.metadata w (value d, record w { resource = (d.metadata, d.status.synced) });
    create = λ d w. (value tt, w);
    delete = λ d w. (value tt, w);
    list = λ pool namespace w. (value [], w);
  };
  conditions = conditions;
  device_service_cli = service_interface metadata_client;
  node_pool = "hangzhou";
}

abbrev over_edgex : DeviceServiceReconciler World
over_edgex = record syncing { device_service_cli = service_interface metadata_client }

-- What the edge platform accepts.
abbrev known : DeviceService → Bool
known d = d.spec.admin_state == "UNLOCKED"

cluster-ClusterAnswers : ClusterAnswers (kind over_edgex known) on_edge stored
unfolding get_edge_device_service_name
cluster-ClusterAnswers = record {
  patches = λ d fs w current.
      let m : ObjectMeta = record (d.metadata) { finalizers = fs } in
      let same = ap (λ (x : ObjectMeta). x.resource_version) current in
      (
        record d { metadata = m },
        with_metadata m w,
        ground (arith, same, eq_refl d.metadata.resource_version),
        refl,
        refl,
        refl,
        refl,
        refl,
        refl,
      );
  writes = λ d w current.
      let same = ap (λ (x : ObjectMeta). x.resource_version) current in
      (
        d,
        record w { resource = (d.metadata, d.status.synced) },
        ground (arith, same, eq_refl d.metadata.resource_version),
        refl,
        refl,
        refl,
      );
}

metadata_client-HoldsServices : HoldsServices metadata_client "modbus" on_edge stored known
unfolding make_edgex_device_service
metadata_client-HoldsServices = record {
  found = λ w there. ("", w, edge_service, ground arith, refl, there, refl);
  missing = λ w away. ("", w, ground arith, away, refl);
  accepts = λ d w named takes away. ("", "", "e9", holding w, refl, ground arith, refl, refl, refl);
}

unsynced_service-IsNew :
    IsNew
      (kind over_edgex known)
      "modbus"
      on_edge
      stored
      (begin unsynced_service.metadata)
      unsynced_service
unfolding get_edge_device_service_name
unsynced_service-IsNew = record {
  named = refl;
  current = refl;
  alive = refl;
  acceptable = refl;
  unsynced = refl;
}

service_gets_in_sync_on_edgex_example :
    (s : Session World DeviceService) × (reconcile_loaded over_edgex
        (begin unsynced_service.metadata)
        unsynced_service
      ≡ (ok done, s))
    × IsSynced (kind over_edgex known) "modbus" on_edge stored s
service_gets_in_sync_on_edgex_example =
    service_gets_in_sync_on_edgex syncing metadata_client "modbus" on_edge stored known
      (begin unsynced_service.metadata) unsynced_service cluster-ClusterAnswers
      metadata_client-HoldsServices refl unsynced_service-IsNew
